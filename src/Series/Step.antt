-- ===== src/Series/Step.antt =====
-- store.go: `Add` and `Advance` on every input.
use self_hosted_anomaly_dete.Common.{
  ℕ, ◌+◌, ◌≤◌, ◌<◌, ◌≡◌, ◌∙◌, refl, Option, none, some, arith, ltb, leb, ◌==◌, if◌then◌else◌,
  if_cases, if_both, length,
}
use self_hosted_anomaly_dete.Common.Int.{ℤ, pos, negsuc}
use self_hosted_anomaly_dete.Floats.{Floats}
use self_hosted_anomaly_dete.Series.{
  Series, close_until, advance_bucket, advance, add_late, add_at, add_bucket, add,
}
use self_hosted_anomaly_dete.Series.Window.{
  IsValid, close_until-IsValid, length-close_until, head-close_until,
}
use self_hosted_anomaly_dete.Series.Samples.{length-add_late, head-add_late, length-late-add_late}

-- The head `h` or a later one; any head comes after none.
abbrev pub IsFrom : Option ℕ → Option ℕ → Type 0
IsFrom none o = Unit
IsFrom (some h) none = ⊥
IsFrom (some h) (some h') = h ≤ h'

IsFrom-of_some : (o o' : Option ℕ) (h b : ℕ) → o ≡ some h → o' ≡ some b → h ≤ b → IsFrom o o'
IsFrom-of_some o o' h b p q k = rw (p, q) k

-- A valid series of the same size, whose head did not go back.
pub record Follows {fl : Floats} {Info : Type 0} (s t : Series fl Info) : Type 0 where
  pub valid : IsValid t
  pub size : length t.vals ≡ length s.vals
  pub forward : IsFrom s.head t.head

module _ (fl : Floats) {Info : Type 0} where
  stays : (s : Series fl Info) → IsValid s → Follows s s
  stays s v = record { valid = v; size = refl; forward = from_self s.head }
    where
      from_self : (o : Option ℕ) → IsFrom o o
      from_self none = tt
      from_self (some h) = omega arith

  close_until-Follows :
      (s : Series fl Info) (h b : ℕ)
      → IsValid s
      → s.head ≡ some h
      → h < b
      → Follows s (close_until fl s h b)
  close_until-Follows s h b v e k = record {
    valid = close_until-IsValid fl s h b v;
    size = length-close_until fl s h b;
    forward = IsFrom-of_some _ _ h b e (head-close_until fl s h b) (omega arith);
  }

  advance_bucket-Follows :
      (s : Series fl Info) (b : ℕ) → IsValid s → Follows s (advance_bucket fl s b)
  unfolding advance_bucket
  advance_bucket-Follows s b v = go s.head refl
    where
      go :
          (o : Option ℕ)
          → s.head ≡ o
          → Follows s (elim o [ none ↦ s | some h ↦ if leb b h then s else close_until fl s h b ])
      go none e = stays s v
      go (some h) e =
          if_cases (Follows s) (leb b h) (λ t. stays s v)
            (λ f. close_until-Follows s h b v e (ground arith))

  -- The open bucket's sum and count are no part of what `Follows` says.
  Follows-open :
      (s t : Series fl Info) (acc : fl.F) (cnt : ℕ)
      → Follows s t
      → Follows s (record t { acc = acc; cnt = cnt })
  Follows-open s t acc cnt f = record {
    valid = record { room = f.valid.room; lates = f.valid.lates };
    size = f.size;
    forward = f.forward;
  }

  add_late-Follows :
      (s : Series fl Info) (h b : ℕ) (x : fl.F) → IsValid s → Follows s (add_late fl s h b x)
  add_late-Follows s h b x v = record {
    valid = record {
      room = rw (length-add_late fl s h b x) v.room;
      lates = length-late-add_late fl s h b x ∙ v.lates;
    };
    size = length-add_late fl s h b x;
    forward = rw (head-add_late fl s h b x) (stays s v).forward;
  }

  add_at-Follows :
      (s : Series fl Info) (h b : ℕ) (x : fl.F) → IsValid s → Follows s (add_at fl s h b x)
  unfolding add_at
  add_at-Follows s h b x v = if_both (Follows s) (b == h) (Follows-open s s _ _ (stays s v)) (
      if_both (Follows s) (ltb h b)
        (Follows-open s (advance_bucket fl s b) x 1 (advance_bucket-Follows s b v))
        (if_both (Follows s) (ltb h (b + length s.vals)) (add_late-Follows s h b x v) (stays s v)))

  add_bucket-Follows :
      (s : Series fl Info) (b : ℕ) (x : fl.F) → IsValid s → Follows s (add_bucket fl s b x)
  unfolding add_bucket
  add_bucket-Follows s b x v = go s.head refl
    where
      go :
          (o : Option ℕ)
          → s.head ≡ o
          → Follows s (elim o [
            | none ↦ record s { head = some b; acc = x; cnt = 1 }
            | some h ↦ add_at fl s h b x
          ])
      go none e = record {
        valid = record { room = v.room; lates = v.lates };
        size = refl;
        forward = rw e tt;
      }
      go (some h) e = add_at-Follows s h b x v

  -- `Add` keeps a valid series valid and its ring's size, and does not move its head back, for
  -- every bucket number, negative ones included, and every value.
  pub add-Follows : (s : Series fl Info) (b : ℤ) (x : fl.F) → IsValid s → Follows s (add fl s b x)
  unfolding add
  add-Follows s (negsuc b) x v = stays s v
  add-Follows s (pos b) x v = add_bucket-Follows s b x v

  -- `Advance` keeps a valid series valid and its ring's size, and does not move its head back, for
  -- every bucket number, negative ones included.
  pub advance-Follows : (s : Series fl Info) (b : ℤ) → IsValid s → Follows s (advance fl s b)
  unfolding advance
  advance-Follows s (negsuc b) v = stays s v
  advance-Follows s (pos b) v = advance_bucket-Follows s b v
