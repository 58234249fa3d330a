-- ===== src/Store/Entries.antt =====
-- store.go, `Snapshot`: all the shards together are one map.
use self_hosted_anomaly_dete.Common.{
  ℕ, zero, suc, ◌≡◌, refl, sym, ap, ◌∙◌, Option, none, some, List, [], ◌∷◌, ◌++◌, arith, All,
  if_true,
}
use self_hosted_anomaly_dete.Common.Keys.{nat_eq, list_eq, list_beq, list_beq_iff, lookup, IsMap}
use self_hosted_anomaly_dete.Floats.{Floats}
use self_hosted_anomaly_dete.Series.{Series}
use self_hosted_anomaly_dete.Store.{Key, Shard, Store, shard_of, entries, find}
use self_hosted_anomaly_dete.Store.Placed.{at_shard, IsPlaced}

module _ (fl : Floats) {Info : Type 0} where
  abbrev pub or_else : Option (Series fl Info) → Option (Series fl Info) → Option (Series fl Info)
  or_else none o = o
  or_else (some s) o = some s

  pub lookup-append :
      (k : Key) (m n : Shard fl Info) → lookup k (m ++ n) ≡ or_else (lookup k m) (lookup k n)
  lookup-append k [] n = refl
  lookup-append k ((j, t) ∷ m) n = ground (arith, lookup-append k m n)

  -- A key of all the shards is one of a shard.
  pub lookup-entries :
      (k : Key) (s : Series fl Info) (ms : List (Shard fl Info))
      → lookup k (entries fl ms) ≡ some s
      → (i : ℕ) × (lookup k (at_shard fl ms i) ≡ some s)
  lookup-entries k s [] e = absurd (ground (arith, e))
  lookup-entries k s (m ∷ ms) e =
      go (lookup k m) refl (λ q. lookup-entries k s ms q)
        (sym (lookup-append k m (entries fl ms)) ∙ e)
    where
      go :
          (o : Option (Series fl Info))
          → lookup k m ≡ o
          → (lookup k (entries fl ms) ≡ some s → (i : ℕ) × (lookup k (at_shard fl ms i) ≡ some s))
          → or_else o (lookup k (entries fl ms)) ≡ some s
          → (i : ℕ) × (lookup k (at_shard fl (m ∷ ms) i) ≡ some s)
      go none p rest q = let (i, r) = rest q in (suc i, r)
      go (some t) p rest q = (zero, p ∙ q)

  first_none : (o p : Option (Series fl Info)) → or_else o p ≡ none → o ≡ none
  first_none none p e = refl
  first_none (some s) p e = absurd (ground (arith, e))

  second_none : (o p : Option (Series fl Info)) → or_else o p ≡ none → p ≡ none
  second_none none p e = e
  second_none (some s) p e = absurd (ground (arith, e))

  pub entries-none :
      (k : Key) (ms : List (Shard fl Info)) (i : ℕ)
      → lookup k (entries fl ms) ≡ none
      → lookup k (at_shard fl ms i) ≡ none
  entries-none k [] i e = refl
  entries-none k (m ∷ ms) zero e =
      first_none (lookup k m) (lookup k (entries fl ms))
        (sym (lookup-append k m (entries fl ms)) ∙ e)
  entries-none k (m ∷ ms) (suc i) e = entries-none k ms i (
      second_none (lookup k m) (lookup k (entries fl ms))
        (sym (lookup-append k m (entries fl ms)) ∙ e))

  module _ (hash : Key → ℕ) (st : Store fl Info) (placed : IsPlaced fl hash st) where
    -- What all the shards hold under a key is what its own shard does.
    pub find-entries : (k : Key) → lookup k (entries fl st.shards) ≡ find fl hash st k
    unfolding find
    find-entries k = go (lookup k (entries fl st.shards)) refl
      where
        go :
            (o : Option (Series fl Info))
            → lookup k (entries fl st.shards) ≡ o
            → o ≡ lookup k (at_shard fl st.shards (shard_of hash k))
        go none e = sym (entries-none k st.shards (shard_of hash k) e)
        go (some s) e =
            let (i, r) = lookup-entries k s st.shards e in
            sym r ∙ ap (λ j. lookup k (at_shard fl st.shards j)) (sym (placed.shard i k s r))

  -- No two shards hold a key.
  abbrev Once : List (Shard fl Info) → Type 0
  Once ms =
      (i j : ℕ) (k : Key) (s t : Series fl Info)
      → lookup k (at_shard fl ms i) ≡ some s
      → lookup k (at_shard fl ms j) ≡ some t
      → i ≡ j

  append-IsMap :
      (m n : Shard fl Info)
      → IsMap m
      → IsMap n
      → ((k : Key) (s : Series fl Info) → lookup k m ≡ some s → lookup k n ≡ none)
      → IsMap (m ++ n)
  append-IsMap [] n hm hn h = hn
  append-IsMap ((j, s) ∷ m) n hm hn h = (
    lookup-append j m n
        ∙ ap (λ o. or_else o (lookup j n)) hm.0
        ∙ h j s (if_true (list_beq j j) _ _ ((list_beq_iff j j).1 refl)),
    append-IsMap m n hm.1 hn (λ k t e. h k t (ground (arith, e, hm.0, list_beq_iff j k))),
  )

  pub entries-IsMap : (ms : List (Shard fl Info)) → All IsMap ms → Once ms → IsMap (entries fl ms)
  entries-IsMap [] h once = tt
  entries-IsMap (m ∷ ms) h once =
      append-IsMap m (entries fl ms) h.0
        (entries-IsMap ms h.1 (λ i j k s t e f. omega (arith, once (suc i) (suc j) k s t e f)))
        (λ k s e. apart k s e (lookup k (entries fl ms)) refl)
    where
      apart :
          (k : Key) (s : Series fl Info)
          → lookup k m ≡ some s
          → (o : Option (Series fl Info)) → lookup k (entries fl ms) ≡ o
          → o ≡ none
      apart k s e none f = refl
      apart k s e (some t) f =
          let (i, r) = lookup-entries k t ms f in
          absurd (omega (arith, once zero (suc i) k s t e r))
