-- ===== src/Stellar/Breaker/Bounds.antt =====
-- The attempts of `execute` in retry-with-fallback.ts.
use veillend.Base.{ℕ, zero, suc, ◌+◌, ◌≤◌, Bool, Option, none, some, List, length, arith}
use veillend.Stellar.Breaker.{
  Provider, Options, write, read, max_attempts, Reply, result, fails, Attempt, Answer, threw, Call,
  Outcome, record_failure, on_reply, on_provider, attempts, execute,
}

reply-calls :
    (w : Bool) (t n : ℕ) (p : Provider) (put : Provider → List Provider) (c : Call)
    (rest : Answer → List Provider → Outcome) (r : Reply)
    → ((a : Answer) (ps : List Provider) → length (rest a ps).calls ≤ n)
    → length (on_reply w t p put c rest r).calls ≤ suc n
unfolding on_reply
reply-calls w t n p put c rest (result x) h = omega arith
reply-calls w t n p put c rest (fails s) h =
    ground (arith, h (threw s) (put (record_failure t s p)))

provider-calls :
    (w : Bool) (a : Attempt) (n : ℕ) (rest : Answer → List Provider → Outcome) (ps : List Provider)
    (o : Option (Provider × (Provider → List Provider)))
    → ((l : Answer) (ps : List Provider) → length (rest l ps).calls ≤ n)
    → length (on_provider w a rest ps o).calls ≤ suc n
unfolding on_provider
provider-calls w a n rest ps none h = omega arith
provider-calls w a n rest ps (some (p, put)) h = reply-calls w _ n p put _ rest _ h

attempts-calls :
    (w : Bool) (world : ℕ → Attempt) (n k : ℕ) (l : Answer) (ps : List Provider)
    → length (attempts w world n k l ps).calls ≤ n
unfolding attempts
attempts-calls w world zero k l ps = omega arith
attempts-calls w world (suc n) k l ps =
    provider-calls w (world k) n (λ l' ps'. attempts w world n (k + 1) l' ps') ps _
      (λ l' ps'. attempts-calls w world n (k + 1) l' ps')

calls_allowed :
    (world : ℕ → Attempt) (options : Options) (ps : List Provider)
    → length (execute world options ps).calls ≤ max_attempts options
unfolding execute
calls_allowed world options ps = attempts-calls _ world (max_attempts options) 0 _ ps

-- A write calls the operation at most once. A read calls it at most as often as it says, and at
-- most three times where it says nothing or 0.
pub calls_bounded :
    (world : ℕ → Attempt) (n : ℕ) (ps : List Provider)
    → (length (execute world write ps).calls ≤ 1)
      × (length (execute world (read (some (n + 1))) ps).calls ≤ n + 1)
      × (length (execute world (read none) ps).calls ≤ 3)
      × (length (execute world (read (some 0)) ps).calls ≤ 3)
unfolding max_attempts
calls_bounded world n ps = (
  calls_allowed world write ps,
  ground (arith, calls_allowed world (read (some (n + 1))) ps),
  calls_allowed world (read none) ps,
  calls_allowed world (read (some 0)) ps,
)
