-- ===== src/Tests/Lines.antt =====
-- mask.go and the pool of drain.go at a short line and a full pool.
use self_hosted_anomaly_dete.Common.{◌≡◌, refl, [], ◌∷◌, map, arith, inr, some}
use self_hosted_anomaly_dete.Common.Text.{bytes}
use self_hosted_anomaly_dete.Drain.{Token}
use self_hosted_anomaly_dete.Drain.Mask.{
  mask_dirty, tokenize, mask_num, tokenize_from, run_upto, mask, mask_from, match_at, match_uuid,
  match_ipv4, ipv4_groups, match_hex, match_prefixed, match_num, unit_length, mask_address,
  last_dot, trimmed,
}
use self_hosted_anomaly_dete.Drain.Words.{words_of, tokenize-words_of}
use self_hosted_anomaly_dete.Drain.Mining.{new_miner}
use self_hosted_anomaly_dete.Drain.Pool.{Pool, get, Gives, get-Gives}
use self_hosted_anomaly_dete.Tests.Toy.{toy}

-- A line with white space in front and none behind.
abbrev line : Token
line = 9 ∷ bytes " took  15ms"

tokenize-words_of_example : tokenize line ≡ map mask_dirty (words_of line)
tokenize-words_of_example = tokenize-words_of line

abbrev full : Pool toy
full = record {
  cfg = record { depth = 4; sim_th = some 1; max_children = 100; max_clusters = 1 };
  max_keys = 1;
  miners =
      (
        b'a' ∷ [],
        new_miner toy (record { depth = 4; sim_th = some 1; max_children = 100; max_clusters = 1 }),
      )
      ∷ [];
}

get-Gives_example :
    Gives toy full
      (record { keys = inr (omega arith); distinct = (refl, tt) })
      (b'b' ∷ [])
      (get toy full (b'b' ∷ []))
get-Gives_example =
    get-Gives toy full (record { keys = inr (omega arith); distinct = (refl, tt) }) (b'b' ∷ [])

-- Digits with a unit are masked, and so are twelve hexadecimal digits.
masks_number : tokenize (line) ≡ (b't' ∷ b'o' ∷ b'o' ∷ b'k' ∷ []) ∷ mask_num ∷ []
unfolding tokenize tokenize_from run_upto mask mask_from match_at match_uuid match_ipv4 ipv4_groups
    match_hex match_prefixed match_num unit_length mask_address last_dot trimmed
masks_number = refl

abbrev letters : Token
letters = b'a' ∷ b'b' ∷ b'c' ∷ b'd' ∷ b'e' ∷ b'f' ∷ b'a' ∷ b'b' ∷ b'c' ∷ b'd' ∷ b'e' ∷ b'f' ∷ []

-- Twelve hexadecimal letters match on their own, but a token without a digit is not masked.
matches_letters : match_hex letters ≡ 12
unfolding match_hex match_prefixed run_upto
matches_letters = refl

keeps_letters : mask_dirty letters ≡ letters
keeps_letters = refl
