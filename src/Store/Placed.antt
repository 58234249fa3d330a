-- ===== src/Store/Placed.antt =====
-- store.go: a series stands in the shard of its key, and in no other.
use self_hosted_anomaly_dete.Common.{
  ℕ, zero, suc, ◌+◌, ◌≡◌, refl, sym, ap, ◌∙◌, Bool, true, false, Option, none, some, List, [],
  arith, if◌then◌else◌, length, get_or, set, get_or-set_self, get_or-set_ne, if_both,
  length-replicate, replicate, ◌⊎◌, inl, inr,
}
use native.Mathlib.Nat.{mod-lt}
use mathlib.Core.Option.{some-injective}
use self_hosted_anomaly_dete.Common.Keys.{
  nat_eq, list_eq, list_beq, list_beq_iff, lookup, insert, lookup-insert,
}
use self_hosted_anomaly_dete.Floats.{Floats}
use self_hosted_anomaly_dete.Series.{Series, new_series}
use self_hosted_anomaly_dete.Store.Find.{find-put}
use self_hosted_anomaly_dete.Store.{
  Key, Shard, Store, Made, shard_count, shard_of, new_store, find, put, is_full, update_found,
  update,
}

module _ (fl : Floats) {Info : Type 0} where
  abbrev pub at_shard : List (Shard fl Info) → ℕ → Shard fl Info
  at_shard ms i = get_or ms i []

  -- A series stands in the shard of its key, under the key that it holds, and with a ring of the
  -- store's size.
  pub record IsPlaced (hash : Key → ℕ) (st : Store fl Info) : Type 0 where
    pub shard :
        (i : ℕ) (k : Key) (s : Series fl Info)
        → lookup k (at_shard st.shards i) ≡ some s
        → shard_of hash k ≡ i
    pub key : (k : Key) (s : Series fl Info) → find fl hash st k ≡ some s → s.key ≡ k
    pub size :
        (k : Key) (s : Series fl Info) → find fl hash st k ≡ some s → length s.vals ≡ st.capacity

  -- The shards of a new store hold nothing.
  get_or-replicate : (n i : ℕ) → get_or {A = Shard fl Info} (replicate n []) i [] ≡ []
  get_or-replicate zero i = refl
  get_or-replicate (suc n) zero = refl
  get_or-replicate (suc n) (suc i) = get_or-replicate n i

  pub find-new_store :
      (hash : Key → ℕ) (capacity max_series : ℕ) (k : Key)
      → find fl hash (new_store fl {Info = Info} capacity max_series) k ≡ none
  unfolding find new_store
  find-new_store hash capacity max_series k =
      ap (lookup k) (get_or-replicate shard_count (shard_of hash k))

  pub new_store-IsPlaced :
      (hash : Key → ℕ) (capacity max_series : ℕ)
      → IsPlaced hash (new_store fl {Info = Info} capacity max_series)
  unfolding new_store
  new_store-IsPlaced hash capacity max_series = record {
    shard = λ i k s e. absurd (ground (arith, e, ap (lookup k) (get_or-replicate shard_count i)));
    key = λ k s e. absurd (ground (arith, e, find-new_store hash capacity max_series k));
    size = λ k s e. absurd (ground (arith, e, find-new_store hash capacity max_series k));
  }

  module _ (hash : Key → ℕ) (st : Store fl Info) (sharded : length st.shards ≡ shard_count)
      (placed : IsPlaced hash st) where
    put-shard :
        (key : Key) (s : Series fl Info) (i : ℕ) (k : Key) (t : Series fl Info)
        → lookup k (at_shard (put fl hash st key s).shards i) ≡ some t
        → shard_of hash k ≡ i
    unfolding put
    put-shard key s i k t e = ground (
      arith,
      e,
      wrote,
      kept,
      placed.shard i k t,
      list_beq_iff key k,
      lookup-insert key k s (at_shard st.shards (shard_of hash key)),
    )
      where
        new : Shard fl Info
        new = insert key s (at_shard st.shards (shard_of hash key))

        wrote :
            shard_of hash key ≡ i
            → (lookup k (at_shard (set st.shards (shard_of hash key) new) i) ≡ lookup k new)
              × (lookup k (at_shard st.shards (shard_of hash key))
                  ≡ lookup k (at_shard st.shards i))
        wrote p = (
          rw (← p) (
              ap (lookup k) (
                get_or-set_self st.shards (shard_of hash key) new []
                  (rw sharded (mod-lt (hash key) {m = 64} (omega arith))))),
          ap (λ j. lookup k (at_shard st.shards j)) p,
        )

        kept :
            (shard_of hash key ≡ i → ⊥)
            → lookup k (at_shard (set st.shards (shard_of hash key) new) i)
              ≡ lookup k (at_shard st.shards i)
        kept q = ap (lookup k) (get_or-set_ne st.shards new [] q)

    find_set :
        (key k : Key) (s t : Series fl Info)
        → find fl hash (put fl hash st key s) k ≡ some t
        → ((key ≡ k) × (s ≡ t)) ⊎ (find fl hash st k ≡ some t)
    find_set key k s t e = go (list_beq key k) refl (sym (find-put fl hash st sharded key k s) ∙ e)
      where
        go :
            (b : Bool)
            → list_beq key k ≡ b
            → (if b then some s else find fl hash st k) ≡ some t
            → ((key ≡ k) × (s ≡ t)) ⊎ (find fl hash st k ≡ some t)
        go true p q = inl ((list_beq_iff key k).0 p, some-injective s t q)
        go false p q = inr q

    put-IsPlaced :
        (key : Key) (s : Series fl Info) (n : ℕ)
        → s.key ≡ key
        → length s.vals ≡ st.capacity
        → IsPlaced hash (record (put fl hash st key s) { n = n })
    unfolding put find
    put-IsPlaced key s n own size = record {
      shard = λ i k t e. put-shard key s i k t e;
      key = λ k t e. elim (find_set key k s t e) [
        | inl p ↦ ap (λ (u : Series fl Info). u.key) (sym p.1) ∙ own ∙ p.0
        | inr q ↦ placed.key k t q
      ];
      size = λ k t e. elim (find_set key k s t e) [
        | inl p ↦ ap (λ (u : Series fl Info). length u.vals) (sym p.1) ∙ size
        | inr q ↦ placed.size k t q
      ];
    }

    -- `Update` keeps the series in the shards of their keys, under their own keys, with rings of
    -- the store's size, where what it does to a series leaves its key and the size of its ring as
    -- they are.
    pub update-IsPlaced :
        (key : Key) (mk : Made Info) (fn : Series fl Info → Series fl Info)
        → ((s : Series fl Info) → ((fn s).key ≡ s.key) × (length (fn s).vals ≡ length s.vals))
        → IsPlaced hash (update fl hash st key mk fn).0
    unfolding update new_series put find
    update-IsPlaced key mk fn keeps = go (find fl hash st key) refl
      where
        fresh : Series fl Info
        fresh = new_series fl key mk.labels mk.agg st.capacity mk.info

        go :
            (o : Option (Series fl Info))
            → find fl hash st key ≡ o
            → IsPlaced hash (update_found fl hash st key mk fn o).0
        go (some s) e =
            put-IsPlaced key (fn s) st.n ((keeps s).0 ∙ placed.key key s e)
              ((keeps s).1 ∙ placed.size key s e)
        go none e =
            if_both (λ (r : Store fl Info × Bool). IsPlaced hash r.0) (is_full fl st)
              (record { shard = placed.shard; key = placed.key; size = placed.size })
              (put-IsPlaced key (fn fresh) (st.n + 1) (keeps fresh).0
                ((keeps fresh).1 ∙ length-replicate st.capacity fl.nan32))
