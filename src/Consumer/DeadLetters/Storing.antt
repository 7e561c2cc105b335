-- ===== src/Consumer/DeadLetters/Storing.antt =====
-- A letter that was stored is reported as stored. The world records each call with its answer.
use posta.Shared.{
  ◌≡◌, ap, ℕ, String, Bool, true, false, List, [], ◌∷◌, Option, none, some, select, if◌then◌else◌,
  Option-cases, inl, inr, Act, pure,
}
use posta.Shared.Thrown.{Thrown}
use posta.Shared.Recording.{Entry, History, reply}
use posta.Shared.Triples.{Triple, Triple-bind, Triple-try_catch, Triple-weaken, After}
use posta.Consumer.Events.{DlqReason, DlqSendMeta}
use posta.Consumer.DeadLetters.{
  DlqRetentionOptions, DlqEntry, DlqService, DlqDeps, sweep, sweep_text, retention_window,
  clean_limit, clean_aged_entries_throttled, entry, send,
}

pub data Call (D : Type 0) : Type 0 where
  added : DlqEntry D → Call D
  cleaned : (window limit : ℕ) → Call D
  logged : String → Call D

pub record Oracle (D : Type 0) : Type 0 where
  pub fails : History (Call D) → Call D → Option Thrown
  pub redact_keys : D → D × List String
  pub redact : String → String
  pub now_iso : History (Call D) → String
  pub now : History (Call D) → ℕ

abbrev pub State : Type 0 → Type 0
State D = DlqService (History (Call D))

module _ {D : Type 0} (oracle : Oracle D) where
  abbrev pub answered : Call D → Act (State D) (Unit {0})
  answered c s = (
    reply (oracle.fails s.outer c) tt,
    record s { outer = (c, oracle.fails s.outer c) ∷ s.outer },
  )

  abbrev pub recorded : DlqDeps (History (Call D)) D
  recorded = record {
    redact_keys = oracle.redact_keys;
    redact = oracle.redact;
    now_iso = oracle.now_iso;
    now = oracle.now;
    add = λ e. answered (added e);
    clean = λ window limit. answered (cleaned window limit);
    log_error = λ text. answered (logged text);
  }

module _ {D : Type 0} where
  abbrev pub is_add : Entry (Call D) → Bool
  is_add (added e, answer) = true
  is_add (cleaned window limit, answer) = false
  is_add (logged text, answer) = false

  abbrev pub Stored : List (Entry (Call D)) → State D → Type 0
  Stored h s = select is_add s.outer ≡ h

module _ {D : Type 0} (oracle : Oracle D) (options : DlqRetentionOptions)
    (quiet : (h : History (Call D)) (text : String) → oracle.fails h (logged text) ≡ none) where
  sweep-Stored :
      (h : List (Entry (Call D)))
      → Triple (Stored h) (sweep (recorded oracle) options) (λ _. Stored h) (λ _. ⊥)
  sweep-Stored h =
      Triple-try_catch {F = Stored h} _ _
        (record {
          at = λ s p.
              elim (Option-cases (
                oracle.fails s.outer (
                  cleaned (retention_window (recorded oracle) options)
                    (clean_limit (recorded oracle) options)))) [
                      | inl n ↦ rw n p
                      | inr (e, n) ↦ rw n p
                    ];
        })
        (λ e. record { at = λ s p. rw (quiet s.outer (sweep_text (recorded oracle) options e)) p })

  throttled :
      (wait : Bool) (t : ℕ) (h : List (Entry (Call D))) (s : State D)
      → Stored h s
      → After
          (λ _. Stored h)
          (λ _. ⊥)
          (if wait
            then pure tt s
            else sweep (recorded oracle) options (record s { last_clean_attempt_at_ms = t })).0
          (if wait
            then pure tt s
            else sweep (recorded oracle) options (record s { last_clean_attempt_at_ms = t })).1
  unfolding pure
  throttled true t h s p = p
  throttled false t h s p = (sweep-Stored h).at (record s { last_clean_attempt_at_ms = t }) p

  clean-Stored :
      {E : State D → Type 0} (h : List (Entry (Call D)))
      → Triple (Stored h) (clean_aged_entries_throttled (recorded oracle) options) (λ _. Stored h) E
  unfolding clean_aged_entries_throttled
  clean-Stored h =
      Triple-weaken _ (record { at = λ s p. throttled _ _ h s p }) (λ _ p. p) (λ _ _ p. p)
        (λ w n. elim n [ ])

  -- With a logger that does not throw: `send` adds the one entry that it makes of its arguments, and returns
  -- exactly if the queue took it. Whether a sweep of old entries is due, and whether it fails, changes neither.
  pub send-Stored :
      (reason : DlqReason) (payload : D) (e : Thrown) (meta : DlqSendMeta) (s : State D)
      → Stored [] s
      → After
          (λ _.
            Stored
              ((added (entry (recorded oracle) options reason payload e meta s.outer), none) ∷ []))
          (λ s'.
            (x : Thrown) × Stored
              ((added (entry (recorded oracle) options reason payload e meta s.outer), some x) ∷ [])
              s')
          (send (recorded oracle) options reason payload e meta s).0
          (send (recorded oracle) options reason payload e meta s).1
  unfolding send
  send-Stored reason payload e meta s p =
      let letter = entry (recorded oracle) options reason payload e meta s.outer in
      (Triple-bind {Q = λ _. Stored ((added letter, none) ∷ [])} (answered oracle (added letter)) _
          (record {
            at = λ s p. elim (Option-cases (oracle.fails s.outer (added letter))) [
              | inl n ↦ rw n (ap (λ h. (added letter, none) ∷ h) p)
              | inr (x, n) ↦ rw n (x, ap (λ h. (added letter, some x) ∷ h) p)
            ];
          })
          (λ _. clean-Stored _)).at
        s p
