-- ===== src/Ingest/Logs/Templates.antt =====
-- ingest.go, `globalTemplate` and `templateChangedLocked`: they count no line.
use self_hosted_anomaly_dete.Common.{ℕ, ◌≡◌, refl, ◌∙◌, Option, none, some, List, if_both}
use self_hosted_anomaly_dete.Common.Keys.{nat_eq, list_eq, pair_eq, lookup}
use self_hosted_anomaly_dete.Common.Text.{Text}
use self_hosted_anomaly_dete.Floats.{Floats}
use self_hosted_anomaly_dete.Drain.{Change, unchanged, created, updated}
use self_hosted_anomaly_dete.Ingest.Logs.{
  Meta, Logs, Setup, create, reclassify, template_changed, new_alias, by_alias, global_template,
  is_changed,
}

module _ (fl : Floats) (cfg : Setup fl) where
  -- The counter of lines and the registry, which templates do not touch.
  abbrev pub Keeps : Logs fl → Logs fl → Type 0
  Keeps st st' = (st'.log_lines ≡ st.log_lines) × (st'.agents ≡ st.agents)

  create-Keeps :
      (k : Text × ℕ) (now : ℕ) (ch : Change) (st : Logs fl) → Keeps st (create fl cfg k now ch st)
  create-Keeps k now unchanged st = (refl, refl)
  create-Keeps k now created st = (refl, refl)
  create-Keeps k now updated st = (refl, refl)

  reclassify-Keeps :
      (k : Text × ℕ) (text : Text) (o : Option Meta) (st st' : Logs fl)
      → Keeps st st'
      → Keeps st (reclassify fl cfg k text o st')
  reclassify-Keeps k text none st st' h = h
  reclassify-Keeps k text (some m) st st' h = h

  pub template_changed-Keeps :
      (k : Text × ℕ) (text : Text) (ch : Change) (now : ℕ) (st st' : Logs fl)
      → Keeps st st'
      → Keeps st (template_changed fl cfg k text ch now st')
  unfolding template_changed
  template_changed-Keeps k text ch now st st' h =
      let made = create fl cfg k now ch st' in
      let keeps = create-Keeps k now ch st' in
      let both : Keeps st made = (keeps.0 ∙ h.0, keeps.1 ∙ h.1) in
      if_both {A = Logs fl} (Keeps st) (is_changed ch)
        (reclassify-Keeps k text (lookup k made.tmpl) st made both) both

  new_alias-Keeps :
      (svc text : Text) (n now : ℕ) (al : List (Text × ℕ)) (st : Logs fl)
      → Keeps st (new_alias fl cfg svc text n now al st).0
  unfolding new_alias
  new_alias-Keeps svc text n now al st = template_changed-Keeps _ _ _ now st _ (refl, refl)

  by_alias-Keeps :
      (svc text : Text) (n now : ℕ) (al : List (Text × ℕ)) (st : Logs fl) (o : Option ℕ)
      → Keeps st (by_alias fl cfg svc text n now al st o).0
  unfolding by_alias
  by_alias-Keeps svc text n now al st none = new_alias-Keeps svc text n now al st
  by_alias-Keeps svc text n now al st (some id) =
      if_both {A = Logs fl × Text × ℕ} (λ r. Keeps st r.0) _ (refl, refl)
        (new_alias-Keeps svc text n now al st)

  pub global_template-Keeps :
      (clean : Text → Text) (service text : Text) (n now : ℕ) (st : Logs fl)
      → Keeps st (global_template fl cfg clean service text n now st).0
  unfolding global_template
  global_template-Keeps clean service text n now st = by_alias-Keeps _ text n now _ _ _
