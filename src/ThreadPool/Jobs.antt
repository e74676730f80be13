-- ===== src/ThreadPool/Jobs.antt =====
-- What a pool promises, without workers' places, lock and notifications: jobs wait in the order in
-- which they were submitted, up to 16 servers take them from the front, and each is served once.
use module_flow.Prelude.{ℕ, ◌≡◌, ◌<◌, Option, none, some, List, [], ◌∷◌, ◌++◌}
use module_flow.ThreadPool.Workers.{update}

pub record Jobs : Type 0 where
  pub waiting : List ℕ
  pub serving : ℕ → Option ℕ
  pub served : List ℕ

abbrev pub no_jobs : Jobs
no_jobs = record { waiting = []; serving = λ i. none; served = [] }

abbrev pub servers : ℕ
servers = 16

pub data JobStep (j : Jobs) : Jobs → Type 0 where
  submit : (t : ℕ) → JobStep j (record j { waiting = j.waiting ++ t ∷ [] })
  start :
      (i t : ℕ) (ts : List ℕ)
      → i < servers
      → j.waiting ≡ t ∷ ts
      → j.serving i ≡ none
      → JobStep j (record j { waiting = ts; serving = update j.serving i (some t) })
  finish :
      (i t : ℕ)
      → j.serving i ≡ some t
      → JobStep j (record j { serving = update j.serving i none; served = j.served ++ t ∷ [] })

pub data JobReach (j : Jobs) : Jobs → Type 0 where
  here : JobReach j j
  next : {k l : Jobs} → JobReach j k → JobStep k l → JobReach j l
