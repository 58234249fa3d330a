-- ===== src/Ingest/Logs/Aliases.antt =====
-- ingest.go, `globalTemplate`: the aliases of a service do not grow without end.
use self_hosted_anomaly_dete.Common.{
  ℕ, suc, ◌≤◌, ◌≡◌, refl, sym, ◌∙◌, Option, none, some, List, [], ◌∷◌, ltb, length, arith, if_both,
  if_cases, All,
}
use mathlib.Core.Path.{subst}
use self_hosted_anomaly_dete.Common.Keys.{nat_eq, list_eq, pair_eq, lookup, insert, length-insert}
use self_hosted_anomaly_dete.Common.Text.{Text}
use self_hosted_anomaly_dete.Floats.{Floats}
use self_hosted_anomaly_dete.Drain.{Change, unchanged, created, updated}
use self_hosted_anomaly_dete.Drain.Pool.{get}
use self_hosted_anomaly_dete.Ingest.Logs.{
  Meta, Logs, Setup, create, reclassify, template_changed, new_alias, by_alias, global_template,
  is_changed, alias_cap, aliases_of,
}

All-insert :
    {V : Type 0} (P : Text × V → Type 0) (k : Text) (v : V) (m : List (Text × V))
    → P (k, v)
    → All P m
    → All P (insert k v m)
All-insert P k v [] p h = (p, tt)
All-insert P k v ((j, w) ∷ m) p h =
    if_both (All P) (list_eq.beq j k) (p, h.1) (h.0, All-insert P k v m p h.1)

module _ (fl : Floats) (cfg : Setup fl) where
  -- One more alias than the cap, for each service.
  abbrev pub IsCapped : List (Text × List (Text × ℕ)) → Type 0
  IsCapped = All (λ e. length e.1 ≤ suc (alias_cap fl cfg))

  aliases_of-le : (o : Option (List (Text × ℕ))) → length (aliases_of fl cfg o) ≤ alias_cap fl cfg
  aliases_of-le none = omega arith
  aliases_of-le (some al) =
      if_cases {A = List (Text × ℕ)} (λ l. length l ≤ alias_cap fl cfg)
        (ltb (alias_cap fl cfg) (length al)) (λ e. omega arith) (λ e. ground (arith, e))

  create-aliases :
      (k : Text × ℕ) (now : ℕ) (ch : Change) (st : Logs fl)
      → (create fl cfg k now ch st).aliases ≡ st.aliases
  create-aliases k now unchanged st = refl
  create-aliases k now created st = refl
  create-aliases k now updated st = refl

  reclassify-aliases :
      (k : Text × ℕ) (text : Text) (o : Option Meta) (st : Logs fl)
      → (reclassify fl cfg k text o st).aliases ≡ st.aliases
  reclassify-aliases k text none st = refl
  reclassify-aliases k text (some m) st = refl

  template_changed-aliases :
      (k : Text × ℕ) (text : Text) (ch : Change) (now : ℕ) (st : Logs fl)
      → (template_changed fl cfg k text ch now st).aliases ≡ st.aliases
  unfolding template_changed
  template_changed-aliases k text ch now st =
      if_both {A = Logs fl} (λ s. s.aliases ≡ st.aliases) (is_changed ch)
        (reclassify-aliases k text (lookup k (create fl cfg k now ch st).tmpl)
            (create fl cfg k now ch st)
          ∙ create-aliases k now ch st)
        (create-aliases k now ch st)

  new_alias-IsCapped :
      (svc text : Text) (n now : ℕ) (al : List (Text × ℕ)) (st : Logs fl)
      → length al ≤ alias_cap fl cfg
      → IsCapped st.aliases
      → IsCapped (new_alias fl cfg svc text n now al st).0.aliases
  unfolding new_alias
  new_alias-IsCapped svc text n now al st l h =
      subst IsCapped (sym (template_changed-aliases _ _ _ now _))
        (All-insert (λ e. length e.1 ≤ suc (alias_cap fl cfg)) svc _ st.aliases (grown _) h)
    where
      grown : (id : ℕ) → length (insert text id al) ≤ suc (alias_cap fl cfg)
      grown id = ground (arith, l, length-insert text id al)

  by_alias-IsCapped :
      (svc text : Text) (n now : ℕ) (al : List (Text × ℕ)) (st : Logs fl) (o : Option ℕ)
      → length al ≤ alias_cap fl cfg
      → IsCapped st.aliases
      → IsCapped (by_alias fl cfg svc text n now al st o).0.aliases
  unfolding by_alias
  by_alias-IsCapped svc text n now al st none l h = new_alias-IsCapped svc text n now al st l h
  by_alias-IsCapped svc text n now al st (some id) l h =
      if_both {A = Logs fl × Text × ℕ} (λ r. IsCapped r.0.aliases) _ h
        (new_alias-IsCapped svc text n now al st l h)

  -- Whatever texts the agents send, no service has more than one alias above the cap.
  pub global_template-IsCapped :
      (clean : Text → Text) (service text : Text) (n now : ℕ) (st : Logs fl)
      → IsCapped st.aliases
      → IsCapped (global_template fl cfg clean service text n now st).0.aliases
  unfolding global_template
  global_template-IsCapped clean service text n now st h =
      by_alias-IsCapped _ text n now al _ (lookup text al) (aliases_of-le o) (
        All-insert (λ e. length e.1 ≤ suc (alias_cap fl cfg)) svc al st.aliases
          (omega (arith, aliases_of-le o)) h)
    where
      svc : Text
      svc = (get fl st.pool (clean service)).1

      o : Option (List (Text × ℕ))
      o = lookup svc st.aliases

      al : List (Text × ℕ)
      al = aliases_of fl cfg o
