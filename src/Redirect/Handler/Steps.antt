-- ===== src/Redirect/Handler/Steps.antt =====
-- What each call of the middleware adds to the history of a request.
use mathlib.Core.List.{mem-cons_of_mem}
use posta.Shared.{◌≡◌, refl, String, false, ◌∷◌, Option, none, some, inl, inr, pure, ◌>>◌}
use posta.Shared.Thrown.{Thrown}
use posta.Shared.Recording.{History, call, call-Triple}
use posta.Shared.Triples.{Triple, Triple-pure, Triple-bind, Triple-try_catch}
use posta.Redirect.Location.{CodePoints}
use posta.Redirect.Handler.{CachedLink, Reply, not_found, HandlerDeps, send_not_found, resolve}
use posta.Redirect.Handler.History.{
  Call, asked_tenant, asked_link, responded, Oracle, record_call, recorded, is_reply, is_enqueue,
  IsCheckedReply, IsChecked, IsOpen, IsSent, IsAnswered,
}

module _ (oracle : Oracle) where
  abbrev pub deps : HandlerDeps (History Call)
  deps = recorded oracle

  abbrev pub Never : History Call → Type 0
  Never h = ⊥

  pub record-Triple :
      {P Q E : History Call → Type 0} (c : Call)
      → ((h : History Call) → P h → Q ((c, none) ∷ h))
      → Triple P (record_call c) (λ _. Q) E
  record-Triple c q = record { at = λ h p. q h p }

  -- A call that is no reply and no event.
  pub record IsInner (c : Call) (answer : Option Thrown) : Type 0 where
    pub no_reply : is_reply (c, answer) ≡ false
    pub no_enqueue : is_enqueue (c, answer) ≡ false
    pub checked : IsChecked oracle (c, answer)

  more-IsOpen :
      (c : Call) (answer : Option Thrown) (h : History Call)
      → IsInner c answer
      → IsOpen oracle h
      → IsOpen oracle ((c, answer) ∷ h)
  more-IsOpen c answer h i o = record {
    unanswered = rw i.no_reply o.unanswered;
    ordered = (inl i.no_enqueue, o.ordered);
    checked = (i.checked, o.checked);
  }

  pub IsOpen-Triple :
      {A : Type 0} (c : Call) (a : History Call → A)
      → ((answer : Option Thrown) → IsInner c answer)
      → Triple (IsOpen oracle) (call oracle.fails c a) (λ _. IsOpen oracle) (IsOpen oracle)
  IsOpen-Triple c a i =
      call-Triple oracle.fails c a (λ h o. more-IsOpen c none h (i none) o)
        (λ h e o. more-IsOpen c (some e) h (i (some e)) o)

  more-IsSent :
      (location : CodePoints) (c : Call) (answer : Option Thrown) (h : History Call)
      → is_reply (c, answer) ≡ false
      → IsChecked oracle (c, answer)
      → IsSent oracle location h
      → IsSent oracle location ((c, answer) ∷ h)
  more-IsSent location c answer h r k s = record {
    once = rw r s.once;
    sent = mem-cons_of_mem (c, answer) s.sent;
    ordered = (inr (location, s.sent), s.ordered);
    checked = (k, s.checked);
  }

  pub IsSent-Triple :
      {A : Type 0} (location : CodePoints) (c : Call) (a : History Call → A)
      → ((answer : Option Thrown) → is_reply (c, answer) ≡ false)
      → ((answer : Option Thrown) → IsChecked oracle (c, answer))
      → Triple
          (IsSent oracle location)
          (call oracle.fails c a)
          (λ _. IsSent oracle location)
          (IsSent oracle location)
  IsSent-Triple location c a r k =
      call-Triple oracle.fails c a (λ h s. more-IsSent location c none h (r none) (k none) s)
        (λ h e s. more-IsSent location c (some e) h (r (some e)) (k (some e)) s)

  pub log-IsOpen-Triple :
      {E : History Call → Type 0} (c : Call)
      → IsInner c none
      → Triple (IsOpen oracle) (record_call c) (λ _. IsOpen oracle) E
  log-IsOpen-Triple c i = record-Triple c (λ h o. more-IsOpen c none h i o)

  pub log-IsSent-Triple :
      {E : History Call → Type 0} (location : CodePoints) (c : Call)
      → is_reply (c, none) ≡ false
      → IsChecked oracle (c, none)
      → Triple (IsSent oracle location) (record_call c) (λ _. IsSent oracle location) E
  log-IsSent-Triple location c r k = record-Triple c (λ h s. more-IsSent location c none h r k s)

  pub answered :
      {E : History Call → Type 0} (r : Reply)
      → IsCheckedReply oracle r
      → Triple (IsOpen oracle) (record_call (responded r)) (λ _. IsAnswered oracle) E
  answered r k = record-Triple (responded r) (λ h o. record {
    once = rw o.unanswered refl;
    ordered = (inl refl, o.ordered);
    checked = (k, o.checked);
  })

  pub send_not_found-Triple :
      {E : History Call → Type 0} (slug : String)
      → Triple (IsOpen oracle) (send_not_found deps slug) (λ _. IsAnswered oracle) E
  unfolding send_not_found
  send_not_found-Triple slug = answered (not_found (oracle.render_not_found slug)) tt

  pub IsSent-IsAnswered :
      (location : CodePoints) (h : History Call) → IsSent oracle location h → IsAnswered oracle h
  IsSent-IsAnswered location h s = record {
    once = s.once;
    ordered = s.ordered;
    checked = s.checked;
  }

  -- After the first `try` block.
  abbrev pub Found : Option (String × CachedLink) → History Call → Type 0
  Found none h = IsAnswered oracle h
  Found (some l) h = IsOpen oracle h

  ended :
      {E : History Call → Type 0} (slug : String)
      → Triple (IsOpen oracle) (do send_not_found deps slug; pure none) Found E
  ended slug = Triple-bind _ _ (send_not_found-Triple slug) λ _. Triple-pure none

  pub resolve-Triple :
      (handle slug : String) → Triple (IsOpen oracle) (resolve deps handle slug) Found Never
  unfolding resolve
  resolve-Triple handle slug =
      Triple-try_catch _ _
        (Triple-bind _ _
          (IsOpen-Triple (asked_tenant handle) _
            (λ _. record { no_reply = refl; no_enqueue = refl; checked = tt }))
          (elim [
            | none ↦ ended slug
            | some tenant_id ↦
                Triple-bind _ _
                  (IsOpen-Triple (asked_link tenant_id slug) _
                    (λ _. record { no_reply = refl; no_enqueue = refl; checked = tt }))
                  (elim [ none ↦ ended slug | some l ↦ Triple-pure (some (tenant_id, l)) ])
          ]))
        (λ e.
          Triple-bind _ _
            (log-IsOpen-Triple _ (record { no_reply = refl; no_enqueue = refl; checked = tt }))
            λ _. ended slug)
