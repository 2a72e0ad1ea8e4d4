-- ===== src/Autopilot/Sinks/Posts.antt =====
-- How often a sink posts, and what it then returns.
use freshet.Prelude.{
  ℕ, zero, suc, ◌+◌, ◌*◌, ◌≤◌, ◌<◌, ◌≡◌, refl, sym, ap, ◌∙◌, String, true, false, Option, none,
  some, str_eq, arith, ◌⊎◌, inl, inr, Bool-cases,
}
use freshet.Prelude.Exec.{Result, ok, err, other}
use freshet.Autopilot.Brief.{Findings}
use freshet.Autopilot.Sinks.{
  given, Answer, silent, raised, response, Payload, World, Sink, stdout_sink, slack_sink, Slack,
  retry_base, outcome, attempted, settle, attempts, payload_of, deliver,
}

-- The pauses after the attempts from the `k`-th on.
unfoldable pub pauses : (k failed : ℕ) → ℕ
pauses k zero = 0
pauses k (suc failed) = retry_base * k + pauses (suc k) failed

-- What the last attempt gives: the `ts` of its response, or its error, which is raised.
abbrev pub result_of : Option (Option String) → Result (Option String)
result_of none = err other
result_of (some ts) = ok ts

module _ (w : World) (p : Payload) where
  abbrev pub reply : ℕ → Option (Option String)
  reply call = outcome (w.post call p)

  -- Some attempts from `s` on raised, and the one behind them gave the result; only the last one
  -- allowed may have raised.
  pub record IsPosted (left k : ℕ) (s : Slack) (o : Result (Option String) × Slack) : Type 0 where
    pub failed : ℕ
    pub few : failed ≤ left
    pub raises : (j : ℕ) → j < failed → reply (s.calls + j) ≡ none
    pub result : o.0 ≡ result_of (reply (s.calls + failed))
    pub last : (failed ≡ left) ⊎ ((ts : Option String) × (reply (s.calls + failed) ≡ some ts))
    pub calls : o.1.calls ≡ s.calls + failed + 1
    pub slept : o.1.slept ≡ s.slept + pauses k failed

  attempted-counts :
      (a : Answer) (s : Slack)
      → ((attempted a s).calls ≡ suc s.calls) × ((attempted a s).slept ≡ s.slept)
  attempted-counts silent s = (refl, refl)
  attempted-counts raised s = (refl, refl)
  attempted-counts (response ts channel) s = elim (Bool-cases (str_eq (given channel) "")) [
    | inl missing ↦ rw missing (refl, refl)
    | inr there ↦ rw there (refl, refl)
  ]

  at_once :
      (left k : ℕ) (s : Slack) (r : Option (Option String))
      → reply s.calls ≡ r
      → (0 ≡ left) ⊎ ((ts : Option String) × (r ≡ some ts))
      → IsPosted left k s (result_of r, attempted (w.post s.calls p) s)
  unfolding pauses
  at_once left k s r e final =
      let (calls, slept) = attempted-counts (w.post s.calls p) s in
      record {
        failed = 0;
        few = omega arith;
        raises = λ j below. absurd (omega arith);
        result = ap result_of (sym e ∙ ap reply (omega arith));
        last = elim final [
          | inl none_left ↦ inl none_left
          | inr (ts, f) ↦ inr (ts, ap reply (omega arith) ∙ e ∙ f)
        ];
        calls = omega (arith, calls);
        slept = omega (arith, slept);
      }

  -- The state with which the next attempt begins.
  abbrev paused : ℕ → Slack → Slack
  paused k s =
      let t = attempted (w.post s.calls p) s in record t { slept = t.slept + retry_base * k }

  later :
      (left k : ℕ) (s : Slack) (o : Result (Option String) × Slack)
      → reply s.calls ≡ none
      → IsPosted left (suc k) (paused k s) o
      → IsPosted (suc left) k s o
  unfolding pauses
  later left k s o e h =
      let (calls, slept) = attempted-counts (w.post s.calls p) s in
      record {
        failed = suc h.failed;
        few = omega (arith, h.few);
        raises = earlier;
        result = h.result ∙ ap (λ n. result_of (reply n)) (omega (arith, calls));
        last = elim h.last [
          | inl all ↦ inl (ap suc all)
          | inr (ts, f) ↦ inr (ts, ap reply (omega (arith, calls)) ∙ f)
        ];
        calls = omega (arith, calls, h.calls);
        slept = omega (arith, slept, h.slept);
      }
    where
      earlier : (j : ℕ) → j < suc h.failed → reply (s.calls + j) ≡ none
      earlier zero below = ap reply (omega arith) ∙ e
      earlier (suc j) below =
          let (calls, slept) = attempted-counts (w.post s.calls p) s in
          ap reply (omega (arith, calls)) ∙ h.raises j (omega arith)

  settle-IsPosted :
      (left k : ℕ) (s : Slack) (o : Result (Option String) × Slack) (r : Option (Option String))
      → reply s.calls ≡ r
      → IsPosted left (suc k) (paused k s) o
      → IsPosted (suc left) k s (settle r (attempted (w.post s.calls p) s) o)
  settle-IsPosted left k s o none e h = later left k s o e h
  settle-IsPosted left k s o (some ts) e h = at_once (suc left) k s (some ts) e (inr (ts, refl))

  settle_last :
      (k : ℕ) (s : Slack) (r : Option (Option String))
      → reply s.calls ≡ r
      → IsPosted 0 k s
          (settle r (attempted (w.post s.calls p) s) (err other, attempted (w.post s.calls p) s))
  settle_last k s none e = at_once 0 k s none e (inl refl)
  settle_last k s (some ts) e = at_once 0 k s (some ts) e (inl refl)

  attempts-IsPosted : (left k : ℕ) (s : Slack) → IsPosted left k s (attempts w p left k s)
  unfolding attempts
  attempts-IsPosted zero k s = settle_last k s (reply s.calls) refl
  attempts-IsPosted (suc left) k s =
      settle-IsPosted left k s (attempts w p left (suc k) (paused k s)) (reply s.calls) refl
        (attempts-IsPosted left (suc k) (paused k s))

-- What a sink does with a brief: the default one and a dry run post nothing, and Slack's posts.
abbrev pub IsDelivered :
    World → Sink → Findings → Option String → Slack → Result (Option String) × Slack → Type 0
IsDelivered w stdout_sink f thread s o = o ≡ (ok none, s)
IsDelivered w (slack_sink token channel true) f thread s o = o ≡ (ok none, s)
IsDelivered w (slack_sink token channel false) f thread s o =
    IsPosted w (payload_of w channel f thread) 2 1 s o

-- A sink posts nothing, and gives no thread, unless it is Slack's and no dry run. Slack's asks up to
-- three times, each time with the same payload, and stops at the first answer that is no error: it
-- returns that answer's `ts`, and raises after the third error. It sleeps two seconds after the first
-- error and four after the second.
pub deliver-IsDelivered :
    (w : World) (sink : Sink) (f : Findings) (thread : Option String) (s : Slack)
    → IsDelivered w sink f thread s (deliver w sink f thread s)
unfolding deliver
deliver-IsDelivered w stdout_sink f thread s = refl
deliver-IsDelivered w (slack_sink token channel true) f thread s = refl
deliver-IsDelivered w (slack_sink token channel false) f thread s =
    attempts-IsPosted w (payload_of w channel f thread) 2 1 s
