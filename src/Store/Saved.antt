-- ===== src/Store/Saved.antt =====
-- store.go: `Restore` of a `Snapshot`.
use self_hosted_anomaly_dete.Common.{
  ℕ, suc, ◌+◌, ◌≤◌, ◌<◌, ◌≡◌, refl, sym, ap, ap₂, ◌∙◌, Bool, true, false, Option, none, some, List,
  [], ◌∷◌, map, arith, if◌then◌else◌, if_true, if_false, length, ◌==◌, replicate, length-replicate,
  All, ==_iff, length-append,
}
use mathlib.Core.Path.{subst}
use mathlib.Core.List.{foldl}
use self_hosted_anomaly_dete.Common.Keys.{nat_eq, list_eq, list_beq, list_beq_iff, lookup, IsMap}
use self_hosted_anomaly_dete.Floats.{Floats}
use self_hosted_anomaly_dete.Series.{Series, Label, new_series}
use self_hosted_anomaly_dete.Store.{
  Key, Shard, Store, Made, entries, total, copy, find, put, is_full, update_found, update, snap_of,
  snapshot, load_snap, restore_one, restore, new_store,
}
use self_hosted_anomaly_dete.Store.Count.{IsSound, new_store-IsSound, update-IsSound}
use self_hosted_anomaly_dete.Store.Find.{find-update}
use self_hosted_anomaly_dete.Store.Placed.{IsPlaced, find-new_store}
use self_hosted_anomaly_dete.Store.Entries.{find-entries, entries-IsMap}

module _ (fl : Floats) {Info : Type 0} (info : List Label → Info) where
  -- What a series is after it was saved and loaded.
  abbrev pub reloaded : Option (Series fl Info) → Option (Series fl Info)
  reloaded none = none
  reloaded (some s) = some (record s { info = info s.labels })

  copy_all : {A : Type 0} (dst src : List A) → length dst ≡ length src → copy dst src ≡ src
  unfolding copy
  copy_all [] [] e = refl
  copy_all [] (y ∷ src) e = absurd (omega (arith, e))
  copy_all (x ∷ dst) [] e = absurd (omega (arith, e))
  copy_all (x ∷ dst) (y ∷ src) e = ap (λ l. y ∷ l) (copy_all dst src (omega (arith, e)))

  -- A series of the snapshot fits: it holds its key, and its ring is of the store's size.
  abbrev Fits : ℕ → Key × Series fl Info → Type 0
  Fits capacity e = (e.1.key ≡ e.0) × (length e.1.vals ≡ capacity)

  load_snap_new :
      (k : Key) (s : Series fl Info) (capacity : ℕ)
      → Fits capacity (k, s)
      → load_snap fl (snap_of fl (k, s)) (new_series fl k s.labels s.agg capacity (info s.labels))
        ≡ record s { info = info s.labels }
  unfolding load_snap snap_of new_series
  load_snap_new k s capacity fits =
      ap₂ (λ j v. record s { key = j; info = info s.labels; vals = v }) (sym fits.0)
        (copy_all (replicate capacity fl.nan32) s.vals
          (length-replicate capacity fl.nan32 ∙ sym fits.1))

  module _ (hash : Key → ℕ) where
    update_new :
        (st : Store fl Info) (k : Key) (mk : Made Info) (fn : Series fl Info → Series fl Info)
        → find fl hash st k ≡ none
        → is_full fl st ≡ false
        → update fl hash st k mk fn ≡ (
          record (put fl hash st k (fn (new_series fl k mk.labels mk.agg st.capacity mk.info))) {
            n = st.n + 1;
          },
          true,
        )
    unfolding update
    update_new st k mk fn e f =
        ap (update_found fl hash st k mk fn) e ∙ if_false (is_full fl st) _ _ f

    -- The store with a series that was not there.
    record Adds (st : Store fl Info) (k : Key) (s : Series fl Info) (st' : Store fl Info)
        : Type 0 where
      sound : IsSound st'
      n : st'.n ≡ st.n + 1
      max_series : st'.max_series ≡ st.max_series
      capacity : st'.capacity ≡ st.capacity
      finds :
          (j : Key)
          → find fl hash st' j ≡ (if list_beq k j then reloaded (some s) else find fl hash st j)

    made_of : Series fl Info → Made Info
    made_of s = record { labels = s.labels; agg = s.agg; info = info s.labels }

    module _ (st : Store fl Info) (loaded : ℕ) (k : Key) (s : Series fl Info)
        (fits : Fits st.capacity (k, s)) (sound : IsSound st) (new : find fl hash st k ≡ none)
        (room : is_full fl st ≡ false) where
      abbrev fn : Series fl Info → Series fl Info
      fn = load_snap fl (snap_of fl (k, s))

      abbrev added : Store fl Info
      added =
          record (put fl hash st k
            (fn (new_series fl k s.labels s.agg st.capacity (info s.labels)))) { n = st.n + 1 }

      updated : update fl hash st k (made_of s) fn ≡ (added, true)
      unfolding made_of
      updated = update_new st k (made_of s) fn new room

      finds_after :
          (j : Key)
          → find fl hash added j ≡ (if list_beq k j then reloaded (some s) else find fl hash st j)
      unfolding made_of
      finds_after j =
          let inner : (elim (find fl hash st k) [
            | some t ↦ some (fn t)
            | none ↦
                if is_full fl st
                then none
                else some (fn (new_series fl k s.labels s.agg st.capacity (info s.labels)))
          ])
              ≡ reloaded (some s) =
            rw new (rw room (ap (λ t. some t) (load_snap_new k s st.capacity fits))) in
          ap (λ u. find fl hash u.0 j) (sym updated)
          ∙ find-update fl hash st sound.sharded k j (made_of s) fn
          ∙ ap (λ o. if list_beq k j then o else find fl hash st j) inner

      added-Adds : Adds st k s added
      unfolding put made_of
      added-Adds = record {
        sound = subst (λ u. IsSound u.0) updated (update-IsSound fl hash st sound k (made_of s) fn);
        n = refl;
        max_series = refl;
        capacity = refl;
        finds = λ j. finds_after j;
      }

      restored : restore_one fl hash info (st, loaded) (snap_of fl (k, s)) ≡ (added, loaded + 1)
      unfolding restore_one snap_of made_of
      restored =
          if_true (length s.vals == st.capacity) _ _ ((==_iff (length s.vals) st.capacity).1 fits.1)
          ∙ ap
              (λ q.
                let u = update fl hash st q (made_of s) fn in
                (u.0, if u.1 then loaded + 1 else loaded))
              fits.0
          ∙ ap (λ (u : Store fl Info × Bool). (u.0, if u.1 then loaded + 1 else loaded)) updated

    -- The store after the first snapshots, and how many of them were loaded.
    record Loaded (st : Store fl Info) (loaded : ℕ) (es : Shard fl Info) (r : Store fl Info × ℕ)
        : Type 0 where
      count : r.1 ≡ loaded + length es
      finds :
          (k : Key)
          → find fl hash r.0 k
            ≡ (elim (lookup k es) [ none ↦ find fl hash st k | some s ↦ reloaded (some s) ])

    room_for :
        (st : Store fl Info) (n : ℕ)
        → (0 < st.max_series → st.n + suc n ≤ st.max_series)
        → is_full fl st ≡ false
    unfolding is_full
    room_for st n room = ground (arith, room)

    restore-Loaded :
        (es : Shard fl Info) (st : Store fl Info) (loaded : ℕ)
        → IsMap es
        → All (Fits st.capacity) es
        → IsSound st
        → ((k : Key) (s : Series fl Info) → lookup k es ≡ some s → find fl hash st k ≡ none)
        → (0 < st.max_series → st.n + length es ≤ st.max_series)
        → Loaded st loaded es (foldl (restore_one fl hash info) (st, loaded) (map (snap_of fl) es))
    unfolding put
    restore-Loaded [] st loaded h fits sound new room = record {
      count = omega arith;
      finds = λ k. refl;
    }
    restore-Loaded ((k, s) ∷ es) st loaded h fits sound new room =
        let here = new k s (if_true (list_beq k k) _ _ ((list_beq_iff k k).1 refl)) in
        let free = room_for st (length es) room in
        let st' = added st loaded k s fits.0 sound here free in
        let adds = added-Adds st loaded k s fits.0 sound here free in
        let rest =
          restore-Loaded es st' (loaded + 1) h.1 fits.1 adds.sound
            (λ j t e. ground (arith, e, h.0, adds.finds j, new j t, list_beq_iff k j))
            (λ pos_max. omega (arith, room pos_max)) in
        subst
          (λ r.
            Loaded st loaded ((k, s) ∷ es)
              (foldl (restore_one fl hash info) r (map (snap_of fl) es)))
          (sym (restored st loaded k s fits.0 sound here free))
          (record {
            count = omega (arith, rest.count);
            finds = λ j. ground (arith, rest.finds j, h.0, adds.finds j, list_beq_iff k j);
          })

  length-entries : (ms : List (Shard fl Info)) → length (entries fl ms) ≡ total fl ms
  length-entries [] = refl
  length-entries (m ∷ ms) =
      length-append m (entries fl ms) ∙ ap (λ n. length m + n) (length-entries ms)

  all_fit :
      (capacity : ℕ) (es : Shard fl Info)
      → IsMap es
      → ((k : Key) (s : Series fl Info) → lookup k es ≡ some s → Fits capacity (k, s))
      → All (Fits capacity) es
  all_fit capacity [] h fit = tt
  all_fit capacity ((k, s) ∷ es) h fit = (
    fit k s (if_true (list_beq k k) _ _ ((list_beq_iff k k).1 refl)),
    all_fit capacity es h.1 (λ j t e. fit j t (ground (arith, e, h.0, list_beq_iff k j))),
  )

  -- What a sound and placed store saves, a new store with the same ring and the same cap loads,
  -- whatever hash it uses: all series are loaded, and each key has the series that it had, but for
  -- its settings, which are made from its labels.
  pub restore-snapshot :
      (hash hash' : Key → ℕ) (st : Store fl Info)
      → IsSound st
      → IsPlaced fl hash st
      → ((restore fl hash' (new_store fl st.capacity st.max_series) (snapshot fl st) info).1 ≡ st.n)
        × ((k : Key)
            → find fl hash'
                (restore fl hash' (new_store fl st.capacity st.max_series) (snapshot fl st) info).0
                k
              ≡ reloaded (find fl hash st k))
  unfolding restore snapshot new_store
  restore-snapshot hash hash' st sound placed =
      let es = entries fl st.shards in
      let map_of =
        entries-IsMap fl st.shards sound.distinct
          (λ i j k s t e f. sym (placed.shard i k s e) ∙ placed.shard j k t f) in
      let here = find-entries fl hash st placed in
      let empty : Store fl Info = new_store fl st.capacity st.max_series in
      let r =
        restore-Loaded hash' es empty 0 map_of
          (all_fit st.capacity es map_of
            (λ k s e. (placed.key k s (sym (here k) ∙ e), placed.size k s (sym (here k) ∙ e))))
          (new_store-IsSound fl Info st.capacity st.max_series)
          (λ k s e. find-new_store fl hash' st.capacity st.max_series k)
          (λ h. omega (arith, sound.capped h, sound.counted, length-entries st.shards)) in
      (
        omega (arith, r.count, sound.counted, length-entries st.shards),
        λ k. r.finds k ∙ found hash' k (lookup k es) ∙ ap reloaded (here k),
      )
    where
      found :
          (hash' : Key → ℕ) (k : Key) (o : Option (Series fl Info))
          → (elim o [
            | none ↦ find fl hash' (new_store fl {Info = Info} st.capacity st.max_series) k
            | some s ↦ reloaded (some s)
          ])
            ≡ reloaded o
      found hash' k none = find-new_store fl hash' st.capacity st.max_series k
      found hash' k (some s) = refl
