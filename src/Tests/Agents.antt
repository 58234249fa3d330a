-- ===== src/Tests/Agents.antt =====
-- agent.go at a few lines and counts.
use self_hosted_anomaly_dete.Common.{ℕ, ◌≡◌, refl, arith, List, [], ◌∷◌, ◌++◌, true, false}
use self_hosted_anomaly_dete.Common.Text.{Text, bytes}
use self_hosted_anomaly_dete.Logparse.Container.{Envelope}
use self_hosted_anomaly_dete.Agent.{CountKey, Counts, put_back}
use self_hosted_anomaly_dete.Common.Keys.{nat_eq}
use self_hosted_anomaly_dete.Agent.Backlog.{PutsBack, put_back-PutsBack}
use self_hosted_anomaly_dete.Agent.Tail.{read}
use self_hosted_anomaly_dete.Agent.Tail.Chunks.{lines_of, concat, after, read-lines_of}
use self_hosted_anomaly_dete.Agent.Lines.Streams.{texts_of, joined, texts_of-joined}

abbrev api : CountKey
api = ((bytes "api", 1), bytes "error")

abbrev web : CountKey
web = ((bytes "web", 1), [])

abbrev failed : Counts
failed =
    (api, record { template = bytes "a"; buckets = (60, 2) ∷ (120, 1) ∷ [] })
    ∷ (web, record { template = bytes "b"; buckets = (60, 5) ∷ [] })
    ∷ []

abbrev since : Counts
since = (api, record { template = []; buckets = (120, 4) ∷ [] }) ∷ []

-- The backlog is full: the counts of `web` are dropped.
put_back-PutsBack_example : PutsBack 1 failed since 7 (put_back 1 failed (since, 7))
put_back-PutsBack_example =
    put_back-PutsBack 1 failed since 7 (refl, (refl, tt)) ((refl, (refl, tt)), ((refl, tt), tt))

abbrev chunks : List Text
chunks = bytes "one\ntw" ∷ bytes "o\n\nth" ∷ []

abbrev collect : List Text → Text → List Text
collect ls l = ls ++ (l ∷ [])

read-lines_of_example :
    read collect 0 [] (bytes "x") chunks ≡ after collect [] (lines_of (bytes "x" ++ concat chunks))
read-lines_of_example =
    read-lines_of collect chunks 0 [] (bytes "x") (refl, tt) (omega arith, (omega arith, tt))
      (omega arith) ((omega arith, (omega arith, (omega arith, tt))), omega arith)

abbrev mixed : List Envelope
mixed =
    record { text = bytes "a"; stderr = true; partial = true }
    ∷ record { text = bytes "x"; stderr = false; partial = false }
    ∷ record { text = bytes "b"; stderr = true; partial = false }
    ∷ []

texts_of-joined_example :
    texts_of true (record { out = []; err = bytes "z" }) mixed ≡ joined true (bytes "z") mixed
texts_of-joined_example =
    texts_of-joined true mixed (record { out = []; err = bytes "z" }) (bytes "z") refl
      (omega arith, tt)

abbrev buckets : List (ℕ × ℕ)
buckets = (120, 1) ∷ (60, 2) ∷ []
