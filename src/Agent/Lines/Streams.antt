-- ===== src/Agent/Lines/Streams.antt =====
-- agent.go, `line`: the partial lines of a container's two streams.
use mathlib.Core.Path.{subst}
use self_hosted_anomaly_dete.Common.{
  ◌<◌, ◌≡◌, refl, sym, ap, ◌∙◌, Bool, true, false, not, Option, none, some, List, [], ◌∷◌, ◌++◌,
  ltb, if◌then◌else◌, length, arith, Bool-cases, inl, inr, if_true, if_false, if_both, from_true,
  from_false,
}
use self_hosted_anomaly_dete.Common.Text.{Text}
use self_hosted_anomaly_dete.Logparse.Container.{Envelope}
use self_hosted_anomaly_dete.Agent.Tail.{runaway}
use self_hosted_anomaly_dete.Agent.Lines.{Parts, part_of, set_part, keep_part, end_part, join}

abbrev same_stream : Bool → Bool → Bool
same_stream true b = b
same_stream false b = not b

abbrev with_text : Bool → Bool → Option Text → List Text → List Text
with_text b stderr none ts = ts
with_text b stderr (some t) ts = if same_stream b stderr then t ∷ ts else ts

-- The texts that a stream gives, out of the envelopes of both.
abbrev pub texts_of : Bool → Parts → List Envelope → List Text
texts_of b p [] = []
texts_of b p (e ∷ es) = let (p', t) = join p e in with_text b e.stderr t (texts_of b p' es)

-- The texts of a stream by its own envelopes, with no limit.
abbrev pub joined : Bool → Text → List Envelope → List Text
joined b part [] = []
joined b part (e ∷ es) =
    if same_stream b e.stderr
    then (if e.partial then joined b (part ++ e.text) es else (part ++ e.text) ∷ joined b [] es)
    else joined b part es

-- No line of the stream is a runaway line.
abbrev pub IsCalm : Bool → Text → List Envelope → Type 0
IsCalm b part [] = Unit
IsCalm b part (e ∷ es) =
    if same_stream b e.stderr
    then (if e.partial
        then (length (part ++ e.text) < runaway) × IsCalm b (part ++ e.text) es
        else IsCalm b [] es)
    else IsCalm b part es

-- What an envelope of the other stream, and one of the stream, do to the stream's part.
part_of-set_other :
    (b stderr : Bool) (t : Text) (p : Parts)
    → same_stream b stderr ≡ false
    → part_of b (set_part stderr t p) ≡ part_of b p
part_of-set_other true true t p h = cc
part_of-set_other true false t p h = refl
part_of-set_other false true t p h = refl
part_of-set_other false false t p h = cc

part_of-set_self :
    (b stderr : Bool) (t : Text) (p : Parts)
    → same_stream b stderr ≡ true
    → part_of b (set_part stderr t p) ≡ t
part_of-set_self true true t p h = refl
part_of-set_self true false t p h = cc
part_of-set_self false true t p h = cc
part_of-set_self false false t p h = refl

end_part-other :
    (b stderr : Bool) (part text : Text) (p : Parts)
    → same_stream b stderr ≡ false
    → part_of b (end_part stderr part text p).0 ≡ part_of b p
end_part-other b stderr [] text p h = refl
end_part-other b stderr (c ∷ part) text p h = part_of-set_other b stderr [] p h

join-other :
    (b : Bool) (p : Parts) (e : Envelope)
    → same_stream b e.stderr ≡ false
    → part_of b (join p e).0 ≡ part_of b p
unfolding join
join-other b p e h =
    let P : Parts × Option Text → Type 0 = λ r. part_of b r.0 ≡ part_of b p in
    let part = part_of e.stderr p in
    if_both P e.partial
      (if_both P (ltb (length (part ++ e.text)) runaway)
        (part_of-set_other b e.stderr (part ++ e.text) p h) (part_of-set_other b e.stderr [] p h))
      (end_part-other b e.stderr part e.text p h)

join-partial :
    (p : Parts) (e : Envelope) (part : Text)
    → part_of e.stderr p ≡ part
    → e.partial ≡ true
    → length (part ++ e.text) < runaway
    → join p e ≡ (set_part e.stderr (part ++ e.text) p, none)
unfolding join
join-partial p e part q h l =
    if_true e.partial _ _ h
    ∙ ap (λ t. keep_part e.stderr (t ++ e.text) p) q
    ∙ if_true (ltb (length (part ++ e.text)) runaway) _ _ (ground (arith, l))

abbrev Ends : Bool → Text → Parts × Option Text → Type 0
Ends stderr t r = (part_of stderr r.0 ≡ []) × (r.1 ≡ some t)

end_part-Ends :
    (stderr : Bool) (part text : Text) (p : Parts)
    → part_of stderr p ≡ part
    → Ends stderr (part ++ text) (end_part stderr part text p)
end_part-Ends stderr [] text p q = (q, refl)
end_part-Ends true (c ∷ part) text p q = (refl, refl)
end_part-Ends false (c ∷ part) text p q = (refl, refl)

join-Ends :
    (p : Parts) (e : Envelope) (part : Text)
    → part_of e.stderr p ≡ part
    → e.partial ≡ false
    → Ends e.stderr (part ++ e.text) (join p e)
unfolding join
join-Ends p e part q h =
    subst (Ends e.stderr (part ++ e.text))
      (sym (if_false e.partial _ _ h ∙ ap (λ t. end_part e.stderr t e.text p) q))
      (end_part-Ends e.stderr part e.text p q)

same_stream_eq : (b c : Bool) → same_stream b c ≡ true → c ≡ b
same_stream_eq true true h = refl
same_stream_eq true false h = cc
same_stream_eq false true h = cc
same_stream_eq false false h = refl

with_text-other :
    (b stderr : Bool) (o : Option Text) (ts : List Text)
    → same_stream b stderr ≡ false
    → with_text b stderr o ts ≡ ts
with_text-other b stderr none ts h = refl
with_text-other b stderr (some t) ts h = if_false (same_stream b stderr) _ _ h

-- One envelope, over the rest of them.
module _ (b : Bool) (p : Parts) (e : Envelope) (es : List Envelope) (part : Text)
    (q : part_of b p ≡ part)
    (rest : (p' : Parts) (part' : Text)
      → part_of b p' ≡ part'
      → IsCalm b part' es
      → texts_of b p' es ≡ joined b part' es) where
  own_part : same_stream b e.stderr ≡ true → part_of e.stderr p ≡ part
  own_part h = ap (λ c. part_of c p) (same_stream_eq b e.stderr h) ∙ q

  texts_of_partial :
      same_stream b e.stderr ≡ true
      → e.partial ≡ true
      → length (part ++ e.text) < runaway
      → IsCalm b (part ++ e.text) es
      → texts_of b p (e ∷ es) ≡ joined b (part ++ e.text) es
  texts_of_partial h f l calm =
      ap (λ r. with_text b e.stderr r.1 (texts_of b r.0 es))
        (join-partial p e part (own_part h) f l)
      ∙ rest (set_part e.stderr (part ++ e.text) p) (part ++ e.text)
          (part_of-set_self b e.stderr (part ++ e.text) p h) calm

  texts_of_full :
      same_stream b e.stderr ≡ true
      → e.partial ≡ false
      → IsCalm b [] es
      → texts_of b p (e ∷ es) ≡ (part ++ e.text) ∷ joined b [] es
  texts_of_full h f calm =
      let ends = join-Ends p e part (own_part h) f in
      ap (λ o. with_text b e.stderr o (texts_of b (join p e).0 es)) ends.1
      ∙ if_true (same_stream b e.stderr) _ _ h
      ∙ ap (λ ts. (part ++ e.text) ∷ ts)
          (rest (join p e).0 []
            (ap (λ c. part_of c (join p e).0) (sym (same_stream_eq b e.stderr h)) ∙ ends.0) calm)

  texts_of_other :
      same_stream b e.stderr ≡ false → IsCalm b part es → texts_of b p (e ∷ es) ≡ joined b part es
  texts_of_other h calm =
      with_text-other b e.stderr (join p e).1 (texts_of b (join p e).0 es) h
      ∙ rest (join p e).0 part (join-other b p e h ∙ q) calm

-- The envelopes of the two streams may stand in any order: the texts of a stream are those of its
-- own envelopes alone, each run of partial lines joined with the line that ends it, as long as none
-- of them is 1 MiB long.
pub texts_of-joined :
    (b : Bool) (es : List Envelope) (p : Parts) (part : Text)
    → part_of b p ≡ part
    → IsCalm b part es
    → texts_of b p es ≡ joined b part es
texts_of-joined b [] p part q calm = refl
texts_of-joined b (e ∷ es) p part q calm =
    let rest = texts_of-joined b es in
    elim (Bool-cases (same_stream b e.stderr)) [
      | inr h ↦
          texts_of_other b p e es part q rest h (from_false (same_stream b e.stderr) _ _ h calm)
          ∙ sym (if_false (same_stream b e.stderr) _ _ h)
      | inl h ↦ elim (Bool-cases e.partial) [
        | inl f ↦
            let c = from_true e.partial _ _ f (from_true (same_stream b e.stderr) _ _ h calm) in
            texts_of_partial b p e es part q rest h f c.0 c.1
            ∙ sym (if_true (same_stream b e.stderr) _ _ h ∙ if_true e.partial _ _ f)
        | inr f ↦
            texts_of_full b p e es part q rest h f
              (from_false e.partial _ _ f (from_true (same_stream b e.stderr) _ _ h calm))
            ∙ sym (if_true (same_stream b e.stderr) _ _ h ∙ if_false e.partial _ _ f)
      ]
    ]
