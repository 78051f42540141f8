-- ===== src/Core/Session/Hearing.antt =====
-- What an interruption leaves of a response.
use Prim.Native.String.{count, String, ◌∷◌ as cons_char, [] as no_text}
use text.Mathlib.TextLemmas.{length-cons}
use markting_call_center.Base.{
  string_eq, Option, none, some, [], ◌∷◌, ◌++◌, Dict, get, put, get-put, beq_refl, beq_false, ok,
  ◌≢◌, ◌∙◌, false, ℕ, zero, suc, ◌+◌, ◌≤◌, Bool, true, ◌==◌, nat_eq, Bool-cases, inl, inr, ◌≡◌,
  refl, ap, arith,
}
use markting_call_center.Core.Session.Data.{
  Session, SessionDeps, ResponseTrack, InterruptionRecord, Voice, Course, EventBody, ServerMessage,
  Order, prefix,
}
use markting_call_center.Core.Session.Actions.{
  Keeps, keeps_rules, Leads, Leads-pure, Leads-bind, Leads-after, Leads-value, Leads-read,
  modify_log, modify_voice, modify_course,
}
use markting_call_center.Core.Session.Events.{
  read_clock, deliver, emit, send, dialog_fire, order, latency,
}
use markting_call_center.Core.Session.Frames.Logs.{IsMachineFrame, send-Keeps, dialog-Keeps}
use markting_call_center.Core.Session.Interrupts.{interrupt_response-Returns}
use markting_call_center.Core.Session.Interruption.{
  played_of, heard_of, reconciled, cut, set_track, cancel, await_stop, reconcile, detection,
  interrupt_response,
}

count-prefix : (n : ℕ) (s : String) → n ≤ count s → count (prefix n s) ≡ n
unfolding prefix
count-prefix zero s l = refl
count-prefix (suc n) no_text l = omega (arith, l)
count-prefix (suc n) (cons_char c s) l =
    let below = count-prefix n s (omega (arith, l, length-cons c s)) in
    rw (length-cons c (prefix n s)) (ap (λ m. suc m) below)

-- What keeps the responses.
module _ (d : SessionDeps) (rs : Dict String ResponseTrack) where
  abbrev Holds : Session → Type 0
  Holds s = s.voice.responses ≡ rs

  Holds-IsFrame : IsMachineFrame d Holds
  Holds-IsFrame = record {
    clock = unfold read_clock in record { at = λ s h. h };
    delivery = λ m. unfold deliver in record { at = λ s h. h };
    event = λ body. unfold emit in record { at = λ s h. h };
    machines = λ s m h. h;
  }

  clock-Holds : Keeps Holds (read_clock d)
  clock-Holds = Holds-IsFrame.clock

  emit-Holds : (body : EventBody) → Keeps Holds (emit d body)
  emit-Holds = Holds-IsFrame.event

  send-Holds : (m : ServerMessage) → Keeps Holds (send d m)
  send-Holds = send-Keeps Holds-IsFrame

  dialog-Holds :
      (trigger : String) (reason : Option String) → Keeps Holds (dialog_fire d trigger reason)
  dialog-Holds = dialog-Keeps Holds-IsFrame

  ordered-Holds :
      (o : Order) → Keeps Holds (modify_log (λ l. record l { orders = l.orders ++ o ∷ [] }))
  unfolding modify_log
  ordered-Holds o = record { at = λ s h. h }

  order-Holds : (o : Order) → Keeps Holds (order d o)
  unfolding order
  order-Holds o = search (keeps_rules, ordered-Holds)

  course-Holds : (f : Course → Course) → Keeps Holds (modify_course f)
  unfolding modify_course
  course-Holds f = record { at = λ s h. h }

  voice-Holds :
      (f : Voice → Voice)
      → ((v : Voice) → (f v).responses ≡ v.responses)
      → Keeps Holds (modify_voice f)
  unfolding modify_voice
  voice-Holds f same = record { at = λ s h. same s.voice ∙ h }

  latency-Holds : (segment : String) (end start : ℕ) → Keeps Holds (latency d segment end start)
  unfolding latency
  latency-Holds segment end start = voice-Holds _ (λ v. refl)

  set_track-Holds :
      (rid : String) (tr : ResponseTrack) (s : Session)
      → Holds s
      → (set_track rid tr s).1.voice.responses ≡ put rs rid tr
  unfolding modify_voice
  set_track-Holds rid tr s h = rw h refl

ruleset holds_rules = (
  keeps_rules, clock-Holds, emit-Holds, send-Holds, dialog-Holds, order-Holds, course-Holds,
  voice-Holds, latency-Holds,
)

module _ (d : SessionDeps) (rs : Dict String ResponseTrack) where
  cancel-Holds : (rid : String) (tr : ResponseTrack) → Keeps (Holds d rs) (cancel d rid tr)
  unfolding cancel
  cancel-Holds rid tr = search holds_rules depth 20

  await_stop-Holds : (rid : String) (stopped : Bool) → Keeps (Holds d rs) (await_stop d rid stopped)
  unfolding await_stop
  await_stop-Holds rid true = search holds_rules depth 20
  await_stop-Holds rid false = search holds_rules depth 20

  detection-Holds : (t : Option ℕ) → Keeps (Holds d rs) (detection d t)
  unfolding detection
  detection-Holds none = search holds_rules depth 20
  detection-Holds (some t) = search holds_rules depth 20

module _ (d : SessionDeps) (scaled_le : (n a b : ℕ) → a ≤ b → d.scaled n a b ≤ n) where
  played_le : (tr : ResponseTrack) (t1 : ℕ) → played_of d tr t1 ≤ tr.audio_ms_sent
  unfolding played_of
  played_le tr t1 = omega arith

  heard_le :
      (tr : ResponseTrack) (played : ℕ)
      → played ≤ tr.audio_ms_sent
      → heard_of d tr played ≤ count tr.text
  unfolding heard_of
  heard_le tr played l = elim (Bool-cases (tr.audio_ms_sent == 0)) [
    | inl y ↦ rw y (omega arith)
    | inr n ↦ rw n (scaled_le (count tr.text) played tr.audio_ms_sent l)
  ]

  -- What an interruption that found the responses `rs` leaves of the response `rid`, on its record.
  pub record IsCut (rs : Dict String ResponseTrack) (rid : String) (tr : ResponseTrack)
      (rec : InterruptionRecord) (s : Session) : Type 0 where
    pub about : rec.response_id ≡ rid
    pub played_capped : rec.played_ms ≤ tr.audio_ms_sent
    pub split : rec.heard_text_len + rec.unheard_text_len ≡ count tr.text
    pub now : ResponseTrack
    pub there : get s.voice.responses rid ≡ some now
    pub cancelled : now.cancelled ≡ true
    pub heard_only : now.text ≡ prefix rec.heard_text_len tr.text
    pub heard_count : count now.text ≡ rec.heard_text_len
    pub others : (other : String) → rid ≢ other → get s.voice.responses other ≡ get rs other

  reconciled-IsCut :
      (rs : Dict String ResponseTrack) (rid : String) (tr : ResponseTrack) (t0 t1 t2 t3 t4 : ℕ)
      (forced : Bool) (s : Session)
      → s.voice.responses ≡ put rs rid (cut d tr t1)
      → IsCut rs rid tr (reconciled d rid tr t0 t1 t2 t3 t4 forced) s
  unfolding reconciled cut
  reconciled-IsCut rs rid tr t0 t1 t2 t3 t4 forced s h =
      let p = played_le tr t1 in
      let l = heard_le tr (played_of d tr t1) p in
      record {
        about = refl;
        played_capped = p;
        split = omega (arith, l);
        now = cut d tr t1;
        there = rw h (rw (get-put, beq_refl rid));
        cancelled = refl;
        heard_only = refl;
        heard_count = count-prefix _ tr.text l;
        others = λ other n. rw h (rw (get-put, beq_false rid other n));
      }

  reconcile-IsCut :
      (rs : Dict String ResponseTrack) (rid : String) (tr : ResponseTrack) (t0 t1 t2 : ℕ)
      (forced : Bool)
      → Leads (Holds d rs) (reconcile d rid tr t0 t1 t2 forced) (IsCut rs rid tr)
  unfolding reconcile
  reconcile-IsCut rs rid tr t0 t1 t2 forced = Leads-after _ _ (clock-Holds d rs) (λ t3.
      Leads-bind {R = Holds d (put rs rid (cut d tr t1))} _ _
        (set_track-Holds d rs rid (cut d tr t1))
        (λ _.
          search (holds_rules, Leads-value, Leads-after, Leads-pure, reconciled-IsCut) depth 40))

  -- If `int(n * (a / b))` is at most n for a at most b, then an interruption of any response that the
  -- session has, at any times, whatever its state and whether the client reports its stop or not,
  -- raises nothing and returns a record: it has no more playout than audio was sent and splits the
  -- text in what was heard and what was not without a loss; and it leaves the response cancelled,
  -- with the part of its text that was heard, and every other response as it was.
  pub interrupt_response-IsCut :
      (onset_ms : ℕ) (detected_ms : Option ℕ) (stopped late : Bool) (rid : String) (s : Session)
      {tr : ResponseTrack}
      → get s.voice.responses rid ≡ some tr
      → let r = interrupt_response d onset_ms detected_ms stopped late rid s in
        (rec : InterruptionRecord) × (r.0 ≡ ok rec) × IsCut s.voice.responses rid tr rec r.1
  unfolding interrupt_response
  interrupt_response-IsCut onset_ms detected_ms stopped late rid s {tr} h =
      let rs = s.voice.responses in
      let leads : Leads (Holds d rs) (interrupt_response d onset_ms detected_ms stopped late rid)
          (IsCut rs rid tr) =
        Leads-read _ tr _ (λ u k. rw (k, h) refl)
          (search
            (
              holds_rules, detection-Holds, cancel-Holds, await_stop-Holds, Leads-after,
              reconcile-IsCut,
            )
            depth 40) in
      let (rec, e) =
        interrupt_response-Returns d onset_ms detected_ms stopped late rid s {tr = tr} h in
      (rec, e, leads.at s refl rec e)
