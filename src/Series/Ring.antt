-- ===== src/Series/Ring.antt =====
-- store.go: what a run of writes round a ring leaves in it.
use self_hosted_anomaly_dete.Common.{
  ℕ, zero, suc, ◌+◌, ◌-◌, ◌%◌, ◌≤◌, ◌<◌, ◌≡◌, ◌≢◌, ◌∙◌, refl, sym, ap, ◌&&◌, List, arith, ltb, leb,
  ◌==◌, min, if◌then◌else◌, length, get_or, set, length-set, get_or-set_self, get_or-set_ne,
}
use native.Mathlib.Decide.{dec_lt}
use native.Mathlib.Nat.{div-add-mod, mod-lt, add-mod-mod}
use self_hosted_anomaly_dete.Series.{fill}

-- Numbers less than a ring apart have different places in it.
pub mod-ne : (a b n : ℕ) → a < b → b < a + n → a % n ≢ b % n
mod-ne a b n h k = λ e. grind (arith, div-add-mod a n, div-add-mod b n)

pub length-fill {ℓ} :
    {A : Type ℓ} (m : ℕ) (v : A) (count start : ℕ) (l : List A)
    → length (fill m v count start l) ≡ length l
unfolding fill
length-fill m v zero start l = refl
length-fill m v (suc count) start l =
    length-fill m v count (start + 1) (set l (start % m) v) ∙ length-set l (start % m) v

module _ {A : Type 0} (m : ℕ) (v : A) (d : A) (some_place : 0 < m) where
  apart : (y start : ℕ) → start < y + m → y < start + m → start ≢ y → start % m ≢ y % m
  apart y start h k e = elim (dec_lt y start) [
    | yes p ↦ λ q. mod-ne y start m p (omega arith) (sym q)
    | no p ↦ mod-ne start y m (omega arith) k
  ]

  -- A place is written if and only if the run passes it.
  pub get_or-fill :
      (count start : ℕ) (l : List A) (y : ℕ)
      → length l ≡ m
      → start + count ≤ y + m
      → y < start + m
      → get_or (fill m v count start l) (y % m) d
        ≡ (if leb start y && ltb y (start + count) then v else get_or l (y % m) d)
  unfolding fill
  get_or-fill zero start l y hl h k = ground arith
  get_or-fill (suc count) start l y hl h k = ground (
    arith,
    get_or-fill count (start + 1) (set l (start % m) v) y (length-set l (start % m) v ∙ hl),
    wrote,
    kept,
  )
    where
      wrote : y ≡ start → get_or (set l (start % m) v) (y % m) d ≡ v
      wrote e = rw e (get_or-set_self l (start % m) v d (rw hl (mod-lt start some_place)))

      kept : y ≢ start → get_or (set l (start % m) v) (y % m) d ≡ get_or l (y % m) d
      kept e = get_or-set_ne l v d (apart y start (omega arith) k (λ q. e (sym q)))

  -- A run as long as the ring writes every place.
  pub get_or-fill_all :
      (start : ℕ) (l : List A) (y : ℕ)
      → length l ≡ m
      → start ≤ y
      → get_or (fill m v m start l) (y % m) d ≡ v
  get_or-fill_all start l y hl h =
      let near : ℕ = start + (y - start) % m in
      let lt : (y - start) % m < m = mod-lt (y - start) some_place in
      let e : start + (y - start) ≡ y = omega arith in
      let place : near % m ≡ y % m = add-mod-mod start (y - start) m ∙ ap (λ z. z % m) e in
      let got : get_or (fill m v m start l) (near % m) d
          ≡ (if leb start near && ltb near (start + m) then v else get_or l (near % m) d) =
        get_or-fill m start l near hl (omega arith) (omega arith) in
      rw (← place) (got ∙ ground arith)

  -- One write at `h` and a run behind it, up to `b`.
  pub get_or-fill-set :
      (l : List A) (x : A) (h b y : ℕ)
      → length l ≡ m
      → h < b
      → y < b
      → b < y + m
      → get_or (fill m v (min (b - (h + 1)) m) (h + 1) (set l (h % m) x)) (y % m) d
        ≡ (if y == h then x else if ltb y h then get_or l (y % m) d else v)
  get_or-fill-set l x h b y hl hb hy hn = elim (dec_lt (b - (h + 1)) m) [
    | yes p ↦
        let e : min (b - (h + 1)) m ≡ b - (h + 1) = omega arith in
        rw e
          (ground (arith, get_or-fill (b - (h + 1)) (h + 1) (set l (h % m) x) y long, at_h, below))
    | no p ↦
        let e : min (b - (h + 1)) m ≡ m = omega arith in
        rw e (ground (arith, get_or-fill_all (h + 1) (set l (h % m) x) y long))
  ]
    where
      long : length (set l (h % m) x) ≡ m
      long = length-set l (h % m) x ∙ hl

      at_h : y ≡ h → get_or (set l (h % m) x) (y % m) d ≡ x
      at_h e = rw e (get_or-set_self l (h % m) x d (rw hl (mod-lt h some_place)))

      below : y < h → get_or (set l (h % m) x) (y % m) d ≡ get_or l (y % m) d
      below q = get_or-set_ne l x d (λ e. mod-ne y h m q (omega arith) (sym e))
