-- ===== src/Common/Kafka/Returns.antt =====
-- What is left uncommitted when `consume_loop` returns.
use freshet.Prelude.{
  ℕ, ◌≡◌, refl, String, Bool, true, false, Option, none, some, List, [], ◌∷◌, if◌then◌else◌, subst,
}
use freshet.Prelude.Table.{Table, find}
use freshet.Prelude.Exec.{Result, ok, err, bind_ind, pure, ◌>>◌}
use freshet.Common.Kafka.{
  Message, Turn, stopping, nothing, consumer_event, received, Config, Loop, begin, Action,
  write_commits, commit_some, commit_pending, commit_unless_auto, on_message, on_idle, idle_over,
  full, leave, consume, flush,
}
use freshet.Common.Kafka.Commits.{uncommitted, Kept, Safe, consume-Keeps, begin-Kept}

-- Nothing is pending, unless something was raised.
abbrev Emptied : {A : Type 0} → Result A → Loop → Type 0
Emptied (ok _) s = s.pending ≡ []
Emptied (err _) s = Unit

abbrev Left : Result (Option ℕ) → Loop → Type 0
Left (ok (some n)) s = s.pending ≡ []
Left _ s = Unit

commit_some-Emptied :
    (c : Config) (t : Table Message) (s : Loop)
    → s.pending ≡ t
    → Emptied (commit_some c t s).0 (commit_some c t s).1
commit_some-Emptied c [] s e = e
commit_some-Emptied c (x ∷ t) s e =
    bind_ind (λ _ _. Unit {0}) (Emptied {A = Unit {0}}) (flush c) (λ _. write_commits) s tt
      (λ _ s' _. refl) (λ _ s' _. tt)

module _ (c : Config) (manual : c.auto_commit ≡ false) where
  leave-Left : (s : Loop) → Left (leave c s).0 (leave c s).1
  unfolding leave commit_pending
  leave-Left s =
      bind_ind (Emptied {A = Unit {0}}) Left (commit_unless_auto c) (λ _ s'. (ok (some s'.n), s')) s
        (emptied c.auto_commit manual) (λ _ s' e. e) (λ _ s' _. tt)
    where
      emptied :
          (b : Bool)
          → b ≡ false
          → Emptied
              ((if b then pure tt else commit_pending c) s).0
              ((if b then pure tt else commit_pending c) s).1
      emptied true e = cc
      emptied false e = commit_some-Emptied c s.pending s refl

  Left-if :
      (b : Bool) (m : Action (Option ℕ)) (s : Loop)
      → Left (m s).0 (m s).1
      → Left ((if b then leave c else m) s).0 ((if b then leave c else m) s).1
  Left-if true m s h = leave-Left s
  Left-if false m s h = h

  consume-Left : (turns : List Turn) (s : Loop) → Left (consume c turns s).0 (consume c turns s).1
  unfolding consume
  consume-Left [] s = Left-if (full c s) (pure none) s tt
  consume-Left (stopping ∷ turns) s = leave-Left s
  consume-Left (nothing now ∷ turns) s =
      let over : Action (Option ℕ) =
        λ s'. (if idle_over c now s' then leave c else consume c turns) s' in
      Left-if (full c s) (on_idle c >> over) s (
        bind_ind (λ _ _. Unit {0}) Left (on_idle c) (λ _. over) s tt
          (λ _ s' _. Left-if (idle_over c now s') (consume c turns) s' (consume-Left turns s'))
          (λ _ _ _. tt))
  consume-Left (consumer_event ∷ turns) s =
      Left-if (full c s) (consume c turns) s (consume-Left turns s)
  consume-Left (received now m ∷ turns) s =
      Left-if (full c s) (on_message c now m >> consume c turns) s (
        bind_ind (λ _ _. Unit {0}) Left (on_message c now m) (λ _. consume c turns) s tt
          (λ _ s' _. consume-Left turns s') (λ _ _ _. tt))

-- With manual commits, when the loop returns, for whatever reason, every partition's newest handled
-- message is committed.
pub consume_returns_committed :
    (c : Config) (now : ℕ) (turns : List Turn) (n : ℕ) (p : String)
    → c.auto_commit ≡ false
    → (consume c turns (begin now)).0 ≡ ok (some n)
    → uncommitted p (consume c turns (begin now)).1.log ≡ none
unfolding find
consume_returns_committed c now turns n p manual e =
    settled (consume c turns (begin now)).1
      (subst (λ r. Left r (consume c turns (begin now)).1) e
        (consume-Left c manual turns (begin now)))
      (subst (λ r. Safe r (consume c turns (begin now)).1) e
        (consume-Keeps c manual turns (begin now) (begin-Kept now)))
  where
    settled : (s : Loop) → s.pending ≡ [] → Kept s → uncommitted p s.log ≡ none
    settled s empty b = rw (← b.tracks p, empty)
