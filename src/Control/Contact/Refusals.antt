-- ===== src/Control/Contact/Refusals.antt =====
-- When a contact is allowed.
use mathlib.Core.Option.{some-injective}
use markting_call_center.Base.{
  ℕ, ◌+◌, ◌*◌, ◌<◌, ◌≤◌, ◌⊎◌, ◌≢◌, Memᴰ, mem_contains, beq_false, List, string_eq, Bool, true,
  false, not, ◌&&◌, ◌||◌, leb, Option, none, some, String, [], ◌≡◌, refl, arith, append-eq-nil,
  is_empty-nil, ltb, Bool-cases, inl, inr,
}
use markting_call_center.Control.Contact.{
  ContactRefusal, ContactPolicyHooks, ContactState, Window, in_read_window, no_consent_given,
  ref_suppressed, refuse, in_window, refusals_of, evaluate_contact, inside,
}

refuse-nil : (b : Bool) (r : ContactRefusal) → refuse b r ≡ [] → b ≡ false
refuse-nil true r h = cc
refuse-nil false r h = refl

consented : (o : Option Bool) → no_consent_given o ≡ false → o ≡ some true
consented none h = absurd (cc h)
consented (some true) h = refl
consented (some false) h = absurd (cc h)

-- The ends of a window, in microseconds of the day.
abbrev pub opens : Window → ℕ
opens w = (w.start_hour * 60 + w.start_minute) * 60000000

abbrev pub closes : Window → ℕ
closes w = (w.end_hour * 60 + w.end_minute) * 60000000

-- The local time lies between the ends, which are included; a window that does not close after it opens
-- goes over midnight.
pub record IsInside (w : Window) : Type 0 where
  pub start_exists : (w.start_hour < 24) × (w.start_minute < 60)
  pub end_exists : (w.end_hour < 24) × (w.end_minute < 60)
  pub within :
      (opens w < closes w) × (opens w ≤ w.local) × (w.local ≤ closes w)
      ⊎ (closes w ≤ opens w) × ((opens w ≤ w.local) ⊎ (w.local ≤ closes w))

inside_lem :
    (start end local : ℕ)
    → inside start end local ≡ true
    → (start < end) × (start ≤ local) × (local ≤ end)
      ⊎ (end ≤ start) × ((start ≤ local) ⊎ (local ≤ end))
inside_lem start end local h = elim (Bool-cases (leb end start)) [
  | inl t ↦
      let q : leb start local || leb local end ≡ true = rw t at h in
      elim (Bool-cases (leb start local)) [ inl y ↦ ground arith | inr n ↦ ground arith ]
  | inr f ↦ let q : leb start local && leb local end ≡ true = rw f at h in ground arith
]

in_read_window-IsInside :
    (o : Option Window) → in_read_window o ≡ true → (w : Window) × (o ≡ some w) × IsInside w
unfolding in_read_window
in_read_window-IsInside none h = absurd (cc h)
in_read_window-IsInside (some w) h =
    let fits =
      ltb w.start_hour 24 && ltb w.start_minute 60 && ltb w.end_hour 24 && ltb w.end_minute 60 in
    elim (Bool-cases fits) [
      | inr f ↦ absurd (cc (rw f at h))
      | inl t ↦ (
        w,
        refl,
        record {
          start_exists = (ground (arith, t), ground (arith, t));
          end_exists = (ground (arith, t), ground (arith, t));
          within = inside_lem (opens w) (closes w) w.local (rw t at h);
        },
      )
    ]

-- What an allowed contact has.
pub record IsAllowed (read_window : String → Option Window) (hooks : ContactPolicyHooks)
    (state : ContactState) : Type 0 where
  pub agreed : hooks.consent_required ≡ true → state.consent ≡ some true
  pub stays_in : state.has_opted_out ≡ false
  pub not_suppressed : state.is_suppressed ≡ false
  pub not_tagged :
      (ref : String) → hooks.suppression_ref ≡ some ref → ref ≢ "" → Memᴰ ref state.tags → ⊥
  pub has_attempts : state.attempts < hooks.attempt_limit
  pub in_time :
      (text : String)
      → hooks.contact_window ≡ some text
      → text ≢ ""
      → (w : Window) × (read_window text ≡ some w) × IsInside w

untagged :
    (o : Option String) (tags : List String)
    → ref_suppressed o tags ≡ false
    → (ref : String) → o ≡ some ref
    → ref ≢ ""
    → Memᴰ ref tags
    → ⊥
untagged o tags h ref e n m =
    let q : ref_suppressed (some ref) tags ≡ false = rw e at h in
    let t = mem_contains m in cc (rw (beq_false ref "" n, t) at q)

module _ (read_window : String → Option Window) where
  timely :
      (o : Option String)
      → in_window read_window o ≡ true
      → (text : String) → o ≡ some text
      → text ≢ ""
      → (w : Window) × (read_window text ≡ some w) × IsInside w
  unfolding in_window
  timely none h text e n = cc
  timely (some other) h text e n =
      let same : other ≡ text = some-injective other text e in
      let q : in_window read_window (some text) ≡ true = rw same at h in
      in_read_window-IsInside (read_window text) (rw (in_window, beq_false text "" n) at q)

  -- An outbound contact is allowed only with hooks configured, and then only with consent where it is
  -- required, to a contact that neither opted out nor is suppressed, whose tags do not have a
  -- suppression reference that is not empty, below the limit of attempts, and, where a window is
  -- given that is not empty, at a local time inside it, over midnight where it does not close after
  -- it opens; a window that cannot be read allows no contact.
  pub evaluate_contact-IsAllowed :
      (o : Option ContactPolicyHooks) (state : ContactState)
      → (evaluate_contact read_window o state).allowed ≡ true
      → (hooks : ContactPolicyHooks) × (o ≡ some hooks) × IsAllowed read_window hooks state
  unfolding evaluate_contact refusals_of
  evaluate_contact-IsAllowed none state h = absurd (cc h)
  evaluate_contact-IsAllowed (some hooks) state h =
      let (h4, e) = append-eq-nil _ (is_empty-nil _ h) in
      let (h3, d) = append-eq-nil _ h4 in
      let (h2, c) = append-eq-nil _ h3 in
      let (a, b) = append-eq-nil _ h2 in
      let consent_false : hooks.consent_required && no_consent_given state.consent ≡ false =
        refuse-nil _ _ a in
      let free : state.is_suppressed || ref_suppressed hooks.suppression_ref state.tags ≡ false =
        refuse-nil _ _ c in
      let tries : leb hooks.attempt_limit state.attempts ≡ false = refuse-nil _ _ d in
      let time : not (in_window read_window hooks.contact_window) ≡ false = refuse-nil _ _ e in
      (
        hooks,
        refl,
        record {
          agreed = λ q. consented state.consent (ground (arith, q, consent_false));
          stays_in = refuse-nil _ _ b;
          not_suppressed = ground (arith, free);
          not_tagged = untagged hooks.suppression_ref state.tags (ground (arith, free));
          has_attempts = ground (arith, tries);
          in_time = timely hooks.contact_window (ground (arith, time));
        },
      )
