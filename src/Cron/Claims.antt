-- ===== src/Cron/Claims.antt =====
-- However runners interleave, no minute of a job is claimed twice.
use mathlib.Core.Path.{subst}
use ddochi_backend.Prelude.{
  ℕ, ◌<◌, ◌≡◌, refl, sym, ap, ◌∙◌, String, true, false, Option, none, some, List, [], ◌∷◌, arith,
  if◌then◌else◌, All, Bool-cases, Option-cases, inl, inr,
}
use ddochi_backend.Prelude.Text.{str_eq}
use ddochi_backend.Prelude.Rows.{find_row, update_row, find_row_of_update_row}
use ddochi_backend.Cron.Jobs.{
  Job, RunStatus, job_key, claimable, claimed_job, claim, finish, finished_job, before,
}

-- The table with the claims that were granted, the latest first
pub record History : Type 0 where
  pub jobs : List Job
  pub claims : List (String × ℕ)

-- A runner's compare-and-swap
abbrev pub claim_step : String → ℕ → History → History
claim_step k m h =
    let (granted, jobs) = claim k m h.jobs in
    record { jobs = jobs; claims = (if granted then (k, m) ∷ h.claims else h.claims) }

-- What happens next, whoever does it and whatever was read before: a claim, the end of a run, or
-- an edit of a row that keeps its id and LAST_RUN_AT.
pub data Step (h : History) : History → Type 0 where
  claims : (k : String) (m : ℕ) → Step h (claim_step k m h)
  finishes :
      (k : String) (st : RunStatus) (elapsed_ms : ℕ) (err : String)
      → Step h (record h { jobs = finish k st elapsed_ms err h.jobs })
  edits :
      (k : String) (f : Job → Job)
      → ((j : Job) → (f j).job_id ≡ j.job_id)
      → ((j : Job) → (f j).last_run_at ≡ j.last_run_at)
      → Step h (record h { jobs = update_row job_key k f h.jobs })

pub data Reach (h : History) : History → Type 0 where
  here : Reach h h
  next : {i j : History} → Reach h i → Step i j → Reach h j

-- The claims of `k` in the list are for minutes up to LAST_RUN_AT.
abbrev UpTo : String → Option ℕ → List (String × ℕ) → Type 0
UpTo k last cs = All (λ c. str_eq c.0 k ≡ true → before last c.1 ≡ false) cs

-- The claims of each job are for later and later minutes.
abbrev pub Rising : List (String × ℕ) → Type 0
Rising [] = Unit
Rising ((k, m) ∷ cs) = All (λ c. str_eq c.0 k ≡ true → c.1 < m) cs × Rising cs

record IsConsistent (h : History) : Type 0 where
  bounded :
      (k : String) (j : Job) → find_row job_key k h.jobs ≡ some j → UpTo k j.last_run_at h.claims
  rising : Rising h.claims

before-lt : (last : Option ℕ) (m n : ℕ) → before last m ≡ true → before last n ≡ false → n < m
before-lt none m n h k = cc
before-lt (some l) m n h k = ground arith

UpTo-lt :
    (k : String) (last : Option ℕ) (m : ℕ) (cs : List (String × ℕ))
    → before last m ≡ true
    → UpTo k last cs
    → All (λ c. str_eq c.0 k ≡ true → c.1 < m) cs
UpTo-lt k last m [] h u = tt
UpTo-lt k last m (c ∷ cs) h (u, us) =
    ((λ e. before-lt last m c.1 h (u e)), UpTo-lt k last m cs h us)

lt-UpTo :
    (k : String) (m : ℕ) (cs : List (String × ℕ))
    → All (λ c. str_eq c.0 k ≡ true → c.1 < m) cs
    → UpTo k (some m) cs
lt-UpTo k m [] u = tt
lt-UpTo k m (c ∷ cs) (u, us) = ((λ e. let lt : c.1 < m = u e in ground arith), lt-UpTo k m cs us)

-- An edit that keeps the id and LAST_RUN_AT
edit_bounded :
    (k : String) (f : Job → Job) (js : List Job) (cs : List (String × ℕ))
    → ((r : Job) → (f r).job_id ≡ r.job_id)
    → ((r : Job) → (f r).last_run_at ≡ r.last_run_at)
    → ((i : String) (j : Job) → find_row job_key i js ≡ some j → UpTo i j.last_run_at cs)
    → (i : String) (j : Job) → find_row job_key i (update_row job_key k f js) ≡ some j
    → UpTo i j.last_run_at cs
edit_bounded k f js cs id last h i j found =
    elim (find_row_of_update_row job_key k i f js id found) [
      | inl (miss, old) ↦ h i j old
      | inr (j', same, old, new) ↦
          let keeps : j'.last_run_at ≡ j.last_run_at =
            sym (last j') ∙ ap (λ r. r.last_run_at) (sym new) in
          subst (λ l. UpTo i l cs) keeps (h i j' old)
    ]

-- A claim that is granted
granted-IsConsistent :
    (k : String) (m : ℕ) (h : History) (j : Job)
    → IsConsistent h
    → find_row job_key k h.jobs ≡ some j
    → claimable m j ≡ true
    → IsConsistent
        (record { jobs = update_row job_key k (claimed_job m) h.jobs; claims = (k, m) ∷ h.claims })
unfolding claimable
granted-IsConsistent k m h j c found may =
    let free : before j.last_run_at m ≡ true = ground arith in
    let earlier = UpTo-lt k j.last_run_at m h.claims free (c.bounded k j found) in
    record {
      bounded = λ i r there.
          elim (find_row_of_update_row job_key k i (claimed_job m) h.jobs (λ _. refl) there) [
            | inl (miss, old) ↦ ((λ e. cc), c.bounded i r old)
            | inr (r', same, old, new) ↦
                let last : some m ≡ r.last_run_at = ap (λ x. x.last_run_at) (sym new) in
                subst (λ l. UpTo i l ((k, m) ∷ h.claims)) last
                  (
                    (λ e. ground arith),
                    subst (λ x. UpTo x (some m) h.claims) same (lt-UpTo k m h.claims earlier),
                  )
          ];
      rising = (earlier, c.rising);
    }

claim-IsConsistent :
    (k : String) (m : ℕ) (h : History) → IsConsistent h → IsConsistent (claim_step k m h)
unfolding claim
claim-IsConsistent k m h c = elim (Option-cases (find_row job_key k h.jobs)) [
  | inl nothing ↦ rw nothing c
  | inr (j, found) ↦ elim (Bool-cases (claimable m j)) [
    | inl may ↦ rw (found, may) (granted-IsConsistent k m h j c found may)
    | inr not_ ↦ rw (found, not_) c
  ]
]

Step-IsConsistent : {h i : History} → Step h i → IsConsistent h → IsConsistent i
unfolding finish
Step-IsConsistent {h} (claims k m) c = claim-IsConsistent k m h c
Step-IsConsistent {h} (finishes k st ms err) c = record {
  bounded =
      edit_bounded k (finished_job st ms err) h.jobs h.claims (λ _. refl) (λ _. refl) c.bounded;
  rising = c.rising;
}
Step-IsConsistent {h} (edits k f id last) c = record {
  bounded = edit_bounded k f h.jobs h.claims id last c.bounded;
  rising = c.rising;
}

Reach-IsConsistent : {h i : History} → IsConsistent h → Reach h i → IsConsistent i
Reach-IsConsistent c here = c
Reach-IsConsistent c (next r st) = Step-IsConsistent st (Reach-IsConsistent c r)

-- From a table with any LAST_RUN_AT and no claim yet, in whatever order runners claim, finish and
-- others edit, the minutes that are claimed for one job are strictly increasing: none twice.
pub Reach-Rising :
    (js : List Job) {h : History} → Reach (record { jobs = js; claims = [] }) h → Rising h.claims
Reach-Rising js r =
    (Reach-IsConsistent (record { bounded = λ k j found. tt; rising = tt }) r).rising
