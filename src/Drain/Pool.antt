-- ===== src/Drain/Pool.antt =====
-- anomalyd/internal/drain/drain.go: `Pool`, a miner for each key. A pointer to a miner is the key
-- that it stands under. `maxKeys` is a natural number: 0 and below mean no cap.
use self_hosted_anomaly_dete.Common.{
  ℕ, ◌+◌, ◌≤◌, ◌≡◌, ◌⊎◌, inl, inr, refl, Bool, false, ◌&&◌, Option, none, some, List, [], ◌∷◌, ltb,
  leb, if◌then◌else◌, length, arith, if_cases, if_cases,
}
use self_hosted_anomaly_dete.Common.Keys.{
  nat_eq, list_eq, list_beq, list_beq_iff, lookup, insert, lookup-insert, length-insert, IsMap,
  insert-IsMap,
}
use self_hosted_anomaly_dete.Floats.{Floats}
use self_hosted_anomaly_dete.Drain.{Token, Config, Miner}
use self_hosted_anomaly_dete.Drain.Mining.{new_miner}

-- "_other"
abbrev pub overflow_key : Token
overflow_key = b'_' ∷ b'o' ∷ b't' ∷ b'h' ∷ b'e' ∷ b'r' ∷ []

pub record Pool (fl : Floats) : Type 0 where
  pub cfg : Config fl
  pub max_keys : ℕ
  pub miners : List (Token × Miner fl)

module _ (fl : Floats) where
  unfoldable pub new_pool : Config fl → ℕ → Pool fl
  new_pool cfg max_keys = record { cfg = cfg; max_keys = max_keys; miners = [] }

  -- The lookup under the key that was chosen, and a new miner where it finds none.
  unfoldable pub get_or_new : Pool fl → Token → Option (Miner fl) → Pool fl × Token
  get_or_new p key (some m) = (p, key)
  get_or_new p key none = (record p { miners = insert key (new_miner fl p.cfg) p.miners }, key)

  abbrev pub is_crowded : Pool fl → Bool
  is_crowded p = ltb 0 p.max_keys && leb p.max_keys (length p.miners)

  unfoldable pub get_missing : Pool fl → Token → Option (Miner fl) → Pool fl × Token
  unfolding get_or_new
  get_missing p key (some m) = (p, key)
  get_missing p key none =
      if is_crowded p
      then get_or_new p overflow_key (lookup overflow_key p.miners)
      else get_or_new p key none

  -- `Get`: the pool, and the key that is used.
  unfoldable pub get : Pool fl → Token → Pool fl × Token
  unfolding get_missing
  get p key = get_missing p key (lookup key p.miners)

-- At most `maxKeys` miners and the one that the keys beyond share, where there is a cap; no key
-- twice.
pub record IsBounded {fl : Floats} (p : Pool fl) : Type 0 where
  pub keys :
      (p.max_keys ≡ 0)
      ⊎ (length p.miners
          ≤ p.max_keys + (elim (lookup overflow_key p.miners) [ none ↦ 0 | some m ↦ 1 ]))
  pub distinct : IsMap p.miners

module _ (fl : Floats) (p : Pool fl) (bounded : IsBounded p) where
  abbrev pub after : Token → Token → Option (Miner fl)
  after key j = elim (lookup j p.miners) [
    | some m ↦ some m
    | none ↦ if list_beq key j then some (new_miner fl p.cfg) else none
  ]

  -- What `Get` promises of the key that it returns.
  pub record Gives (key : Token) (r : Pool fl × Token) : Type 0 where
    pub bounded' : IsBounded r.0
    pub found : (j : Token) → lookup j r.0.miners ≡ after r.1 j
    pub named : (r.1 ≡ key) ⊎ (r.1 ≡ overflow_key)

  kept :
      (key j : Token) (m : Miner fl)
      → lookup key p.miners ≡ some m
      → lookup j p.miners ≡ after key j
  kept key j m e = ground (arith, e, list_beq_iff key j)

  made :
      (key : Token)
      → lookup key p.miners ≡ none
      → (key ≡ overflow_key) ⊎ (is_crowded fl p ≡ false)
      → IsBounded (record p { miners = insert key (new_miner fl p.cfg) p.miners })
  made key e room = record {
    keys = ground (
      arith,
      e,
      room,
      bounded.keys,
      length-insert key (new_miner fl p.cfg) p.miners,
      lookup-insert key overflow_key (new_miner fl p.cfg) p.miners,
      list_beq_iff key overflow_key,
    );
    distinct = insert-IsMap key (new_miner fl p.cfg) p.miners bounded.distinct;
  }

  looked :
      (key j : Token)
      → lookup key p.miners ≡ none
      → lookup j (insert key (new_miner fl p.cfg) p.miners) ≡ after key j
  looked key j e =
      ground (arith, e, lookup-insert key j (new_miner fl p.cfg) p.miners, list_beq_iff key j)

  got :
      (key : Token) (o : Option (Miner fl))
      → lookup key p.miners ≡ o
      → (key ≡ overflow_key) ⊎ (is_crowded fl p ≡ false)
      → Gives key (get_or_new fl p key o)
  unfolding get_or_new
  got key (some m) e room = record {
    bounded' = bounded;
    found = λ j. kept key j m e;
    named = inl refl;
  }
  got key none e room = record {
    bounded' = made key e room;
    found = λ j. looked key j e;
    named = inl refl;
  }

  missing :
      (key : Token) (o : Option (Miner fl))
      → lookup key p.miners ≡ o
      → Gives key (get_missing fl p key o)
  unfolding get_missing
  missing key (some m) e = record {
    bounded' = bounded;
    found = λ j. kept key j m e;
    named = inl refl;
  }
  missing key none e =
      if_cases (Gives key) (is_crowded fl p)
        (λ full.
          let shared = got overflow_key (lookup overflow_key p.miners) refl (inl refl) in
          record {
            bounded' = shared.bounded';
            found = shared.found;
            named = inr (only _ shared.named);
          })
        (λ room. got key none e (inr room))
    where
      only : (k : Token) → (k ≡ overflow_key) ⊎ (k ≡ overflow_key) → k ≡ overflow_key
      only k (inl q) = q
      only k (inr q) = q

  -- `Get` on a pool within its cap leaves it within its cap, which counts the shared miner apart.
  -- It returns the key or the shared one; there is a miner under what it returns, a new one if
  -- there was none; and the miner under every other key is as it was.
  pub get-Gives : (key : Token) → Gives key (get fl p key)
  unfolding get
  get-Gives key = missing key (lookup key p.miners) refl
