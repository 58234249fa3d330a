-- ===== src/Store/Count.antt =====
-- store.go: the count of series, the cap, and `Delete`.
use self_hosted_anomaly_dete.Common.{
  ℕ, zero, suc, ◌+◌, ◌≤◌, ◌<◌, ◌≡◌, refl, sym, ap, ◌∙◌, Bool, false, Option, none, some, List, [],
  ◌∷◌, map, arith, if◌then◌else◌, if_cases, length-map, length, replicate, get_or, set, length-set,
  All,
}
use native.Mathlib.Nat.{mod-lt}
use self_hosted_anomaly_dete.Common.Keys.{
  nat_eq, list_eq, list_beq_iff, lookup, insert, IsMap, insert-IsMap, length-insert,
}
use self_hosted_anomaly_dete.Floats.{Floats}
use self_hosted_anomaly_dete.Series.{Series, new_series}
use self_hosted_anomaly_dete.Store.{
  Key, Shard, Store, Made, shard_count, shard_of, find, put, is_full, update_found, update,
  new_store, total, keep, for_each_shard, delete,
}

-- The counter is the number of series, the cap holds, and no key stands twice in a shard.
pub record IsSound {fl : Floats} {Info : Type 0} (st : Store fl Info) : Type 0 where
  pub sharded : length st.shards ≡ shard_count
  pub counted : st.n ≡ total fl st.shards
  pub capped : 0 < st.max_series → st.n ≤ st.max_series
  pub distinct : All IsMap st.shards

module _ (fl : Floats) {Info : Type 0} where
  total-set :
      (ms : List (Shard fl Info)) (i : ℕ) (m : Shard fl Info)
      → i < length ms
      → total fl (set ms i m) + length (get_or ms i []) ≡ total fl ms + length m
  total-set [] i m h = absurd (omega arith)
  total-set (x ∷ ms) zero m h = omega arith
  total-set (x ∷ ms) (suc i) m h = omega (arith, total-set ms i m (omega arith))

  All-set :
      (ms : List (Shard fl Info)) (i : ℕ) (m : Shard fl Info)
      → All IsMap ms
      → IsMap m
      → All IsMap (set ms i m)
  All-set [] i m h k = tt
  All-set (x ∷ ms) zero m h k = (k, h.1)
  All-set (x ∷ ms) (suc i) m h k = (h.0, All-set ms i m h.1 k)

  All-get_or : (ms : List (Shard fl Info)) (i : ℕ) → All IsMap ms → IsMap (get_or ms i [])
  All-get_or [] i h = tt
  All-get_or (x ∷ ms) zero h = h.0
  All-get_or (x ∷ ms) (suc i) h = All-get_or ms i h.1

  module _ (hash : Key → ℕ) (st : Store fl Info) (sound : IsSound st) where
    abbrev old : Key → Shard fl Info
    old key = get_or st.shards (shard_of hash key) []

    total-put :
        (key : Key) (s : Series fl Info)
        → total fl (put fl hash st key s).shards + length (old key)
          ≡ total fl st.shards + length (insert key s (old key))
    unfolding put
    total-put key s =
        total-set st.shards (shard_of hash key) (insert key s (old key))
          (rw sound.sharded (mod-lt (hash key) {m = 64} (omega arith)))

    -- The store after a series was put, with the counter that fits.
    put-IsSound :
        (key : Key) (s : Series fl Info) (n : ℕ)
        → n ≡ total fl (put fl hash st key s).shards
        → (0 < st.max_series → n ≤ st.max_series)
        → IsSound (record (put fl hash st key s) { n = n })
    unfolding put
    put-IsSound key s n e c = record {
      sharded = length-set st.shards (shard_of hash key) (insert key s (old key)) ∙ sound.sharded;
      counted = e;
      capped = c;
      distinct =
          All-set st.shards (shard_of hash key) (insert key s (old key)) sound.distinct (
            insert-IsMap key s (old key) (All-get_or st.shards (shard_of hash key) sound.distinct));
    }

    length-insert_found :
        (key : Key) (s : Series fl Info) (o : Option (Series fl Info))
        → find fl hash st key ≡ o
        → length (insert key s (old key))
          ≡ (elim o [ none ↦ suc (length (old key)) | some w ↦ length (old key) ])
    unfolding find
    length-insert_found key s o e = rw (← e) (length-insert key s (old key))

    counts :
        (key : Key) (s : Series fl Info) (o : Option (Series fl Info))
        → find fl hash st key ≡ o
        → total fl (put fl hash st key s).shards ≡ (elim o [ none ↦ st.n + 1 | some w ↦ st.n ])
    counts key s none e =
        omega (arith, total-put key s, length-insert_found key s none e, sound.counted)
    counts key s (some w) e =
        omega (arith, total-put key s, length-insert_found key s (some w) e, sound.counted)

    room_left : is_full fl st ≡ false → 0 < st.max_series → st.n + 1 ≤ st.max_series
    unfolding is_full
    room_left e = ground arith

    -- `Update` on a sound store leaves a sound one, whatever it does to the series: 64 shards, a
    -- counter that is the number of series, no more of them than the cap where there is one, and no
    -- key twice in a shard.
    pub update-IsSound :
        (key : Key) (mk : Made Info) (fn : Series fl Info → Series fl Info)
        → IsSound (update fl hash st key mk fn).0
    unfolding update put
    update-IsSound key mk fn = go (find fl hash st key) refl
      where
        go :
            (o : Option (Series fl Info))
            → find fl hash st key ≡ o
            → IsSound (update_found fl hash st key mk fn o).0
        go (some s) e =
            put-IsSound key (fn s) st.n (sym (counts key (fn s) (some s) e)) sound.capped
        go none e =
            let fresh : Series fl Info =
              fn (new_series fl key mk.labels mk.agg st.capacity mk.info) in
            if_cases (λ (r : Store fl Info × Bool). IsSound r.0) (is_full fl st)
              (λ full. record {
                sharded = sound.sharded;
                counted = sound.counted;
                capped = sound.capped;
                distinct = sound.distinct;
              })
              (λ f. put-IsSound key fresh (st.n + 1) (sym (counts key fresh none e)) (room_left f))

  length-keep-le :
      (drop : Series fl Info → Bool) (m : Shard fl Info) → length (keep fl drop m) ≤ length m
  unfolding keep
  length-keep-le drop [] = omega arith
  length-keep-le drop ((k, s) ∷ m) = ground (arith, length-keep-le drop m)

  total-keep-le :
      (drop : Series fl Info → Bool) (ms : List (Shard fl Info))
      → total fl (map (keep fl drop) ms) ≤ total fl ms
  total-keep-le drop [] = omega arith
  total-keep-le drop (m ∷ ms) = omega (arith, length-keep-le drop m, total-keep-le drop ms)

  lookup-keep :
      (drop : Series fl Info → Bool) (key : Key) (m : Shard fl Info)
      → IsMap m
      → lookup key (keep fl drop m)
        ≡ (elim (lookup key m) [ none ↦ none | some s ↦ if drop s then none else some s ])
  unfolding keep
  lookup-keep drop key [] h = refl
  lookup-keep drop key ((k, s) ∷ m) h =
      ground (arith, list_beq_iff k key, lookup-keep drop key m h.1)

  keep-IsMap : (drop : Series fl Info → Bool) (m : Shard fl Info) → IsMap m → IsMap (keep fl drop m)
  unfolding keep
  keep-IsMap drop [] h = tt
  keep-IsMap drop ((k, s) ∷ m) h = ground (arith, lookup-keep drop k m h.1, keep-IsMap drop m h.1)

  map-keep-IsMap :
      (drop : Series fl Info → Bool) (ms : List (Shard fl Info))
      → All IsMap ms
      → All IsMap (map (keep fl drop) ms)
  map-keep-IsMap drop [] h = tt
  map-keep-IsMap drop (m ∷ ms) h = (keep-IsMap drop m h.0, map-keep-IsMap drop ms h.1)

  get_or-map-keep :
      (drop : Series fl Info → Bool) (ms : List (Shard fl Info)) (i : ℕ)
      → get_or (map (keep fl drop) ms) i [] ≡ keep fl drop (get_or ms i [])
  unfolding keep
  get_or-map-keep drop [] i = refl
  get_or-map-keep drop (m ∷ ms) zero = refl
  get_or-map-keep drop (m ∷ ms) (suc i) = get_or-map-keep drop ms i

  -- `Delete` of a sound store leaves a sound one: it removes the series that `drop` names and no
  -- other, returns how many there were, and keeps the counter right.
  pub delete_lem :
      (hash : Key → ℕ) (st : Store fl Info) (drop : Series fl Info → Bool)
      → IsSound st
      → IsSound (delete fl st drop).0
        × ((delete fl st drop).0.n + (delete fl st drop).1 ≡ st.n)
        × ((key : Key)
            → find fl hash (delete fl st drop).0 key ≡ (elim (find fl hash st key) [
              | none ↦ none
              | some s ↦ if drop s then none else some s
            ]))
  unfolding delete for_each_shard find
  delete_lem hash st drop sound = (
    record {
      sharded = length-map st.shards (keep fl drop) ∙ sound.sharded;
      counted = omega (arith, sound.counted, total-keep-le drop st.shards);
      capped = omega (arith, sound.capped);
      distinct = map-keep-IsMap drop st.shards sound.distinct;
    },
    omega (arith, sound.counted, total-keep-le drop st.shards),
    λ key.
        ap (lookup key) (get_or-map-keep drop st.shards (shard_of hash key))
        ∙ lookup-keep drop key (get_or st.shards (shard_of hash key) [])
            (All-get_or st.shards (shard_of hash key) sound.distinct),
  )

empty_shards :
    (fl : Floats) (Info : Type 0) (n : ℕ) (empties : List (Shard fl Info))
    → empties ≡ replicate n []
    → (length empties ≡ n) × (total fl empties ≡ 0) × All IsMap empties
empty_shards fl Info zero [] e = (refl, refl, tt)
empty_shards fl Info zero (m ∷ ms) e = absurd (ground arith)
empty_shards fl Info (suc n) [] e = absurd (ground arith)
empty_shards fl Info (suc n) (m ∷ ms) e =
    let (a, b, c) = empty_shards fl Info n ms (ground arith) in
    let empty : m ≡ [] = ground arith in
    (omega (arith, a), omega (arith, b, ap length empty), (rw empty tt, c))

-- A new store is sound.
pub new_store-IsSound :
    (fl : Floats) (Info : Type 0) (capacity max_series : ℕ)
    → IsSound (new_store fl {Info = Info} capacity max_series)
unfolding new_store
new_store-IsSound fl Info capacity max_series =
    let (a, b, c) = empty_shards fl Info shard_count (replicate shard_count []) refl in
    record { sharded = a; counted = sym b; capped = λ h. omega arith; distinct = c }
