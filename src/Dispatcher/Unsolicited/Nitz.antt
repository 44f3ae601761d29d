-- ===== src/Dispatcher/Unsolicited/Nitz.antt =====
-- A NITZ time that comes while no client is connected reaches the next client, once.
use platform_hardware_ril.Base.{
  subst, ℕ, ◌≡◌, refl, sym, ap, ap₂, ◌∙◌, Bool, true, false, not, Option, none, some, ◌∷◌, Bytes,
  arith, leb, ◌==◌, if◌then◌else◌, inl, inr, Bool-cases,
}
use platform_hardware_ril.Base.Int.{ℤ, pos, negsuc}
use platform_hardware_ril.Dispatcher.WakeLock.{
  Wake, Call, grab_partial_wake_lock, count_grab, acquire_wake_lock, release_wake_lock,
  release_lock, release_counted, internal_request_timed_callback, request_at, trigger_ev_loop,
  replace_last,
}
use platform_hardware_ril.Dispatcher.Requests.{ResponseType, unsolicited, unsolicited_ack_exp}
use platform_hardware_ril.Dispatcher.Unsolicited.{
  Indication, Daemon, nitz_time_received_ind, send_nitz, call_response_function, wakes_partially,
  note_nitz, grab_for, unsol_type, set_timeout, schedule_timeout, keep_nitz, is_unsol, is_zero,
  error_exit, exit_by, after_response, ril_on_unsolicited_response, free_nitz,
  resend_last_nitz_time_data, on_new_command_connect,
}

grab-version : (call : Call) (w : Wake) → (grab_partial_wake_lock call w).version ≡ w.version
unfolding grab_partial_wake_lock count_grab internal_request_timed_callback request_at
    trigger_ev_loop replace_last acquire_wake_lock release_wake_lock
grab-version call w = ground arith

release-version : (w : Wake) → (release_lock w).version ≡ w.version
unfolding release_lock release_counted release_wake_lock
release-version w = ground arith

-- Two states that differ in the wake lock at most, and there not in the version.
pub record SameButWake (d d' : Daemon) : Type 0 where
  pub registered : d'.register_called ≡ d.register_called
  pub version : d'.wake.version ≡ d.wake.version
  pub connected : d'.connected ≡ d.connected
  pub indicated : d'.indicated ≡ d.indicated
  pub last_nitz : d'.last_nitz ≡ d.last_nitz
  pub nitz_received : d'.nitz_received ≡ d.nitz_received

grab-SameButWake : (call : Call) (code : ℕ) (d : Daemon) → SameButWake d (grab_for call code d)
unfolding grab_for
grab-SameButWake call code d = ground (arith, grab-version call d.wake)

schedule-SameButWake :
    (call : Call) (code : ℕ) (d : Daemon) → SameButWake d (schedule_timeout call code d).1
unfolding schedule_timeout set_timeout internal_request_timed_callback request_at trigger_ev_loop
    replace_last
schedule-SameButWake call code d = ground arith

error-SameButWake : (code : ℕ) (d : Daemon) → SameButWake d (error_exit code d)
unfolding error_exit
error-SameButWake code d = ground (arith, release-version d.wake)

trans-SameButWake : {a b c : Daemon} → SameButWake a b → SameButWake b c → SameButWake a c
trans-SameButWake h k = record {
  registered = k.registered ∙ h.registered;
  version = k.version ∙ h.version;
  connected = k.connected ∙ h.connected;
  indicated = k.indicated ∙ h.indicated;
  last_nitz = k.last_nitz ∙ h.last_nitz;
  nitz_received = k.nitz_received ∙ h.nitz_received;
}

refl-SameButWake : (d : Daemon) → SameButWake d d
refl-SameButWake d = record {
  registered = refl;
  version = refl;
  connected = refl;
  indicated = refl;
  last_nitz = refl;
  nitz_received = refl;
}

exit-SameButWake : (code : ℕ) (x : Bool × Daemon) → SameButWake x.1 (exit_by code x)
unfolding exit_by
exit-SameButWake code (true, d) = refl-SameButWake d
exit-SameButWake code (false, d) = error-SameButWake code d

-- behind a message that is no NITZ time
after_response-SameButWake :
    (call : Call) (memory : Bool) (code : ℕ) (data_sent : Option Bytes) (ret : ℤ) (d : Daemon)
    → (code == 1008) ≡ false
    → SameButWake d (after_response call memory code data_sent (ret, d))
unfolding after_response
after_response-SameButWake call memory code data_sent ret d e =
    trans-SameButWake (schedule-SameButWake call code d)
      (trans-SameButWake (kept (schedule_timeout call code d).0) (exit-SameButWake code _))
  where
    d' : Daemon
    d' = (schedule_timeout call code d).1

    kept :
        (b : Bool)
        → SameButWake d' (if b then keep_nitz memory ret code data_sent d' else (false, d')).1
    kept true =
        unfold keep_nitz in
        elim (Bool-cases (not (is_zero ret))) [
          | inl f ↦ rw (f, e) (refl-SameButWake d')
          | inr f ↦ rw f (refl-SameButWake d')
        ]
    kept false = refl-SameButWake d'

-- with a message of a code sent
abbrev pub with_sent : ResponseType → ℕ → Option Bytes → Daemon → Daemon
with_sent type code data_sent d = record d {
  indicated =
      record { type = type; code = code; data_sent = data_sent; received = none } ∷ d.indicated;
}

with_sent-SameButWake :
    {d d' : Daemon} (type : ResponseType) (code : ℕ) (data_sent : Option Bytes)
    → SameButWake d d'
    → SameButWake (with_sent type code data_sent d) (with_sent type code data_sent d')
with_sent-SameButWake type code data_sent h = record {
  registered = h.registered;
  version = h.version;
  connected = h.connected;
  indicated =
      ap (◌∷◌ (record { type = type; code = code; data_sent = data_sent; received = none }))
        h.indicated;
  last_nitz = h.last_nitz;
  nitz_received = h.nitz_received;
}

-- with a NITZ time sent
abbrev with_nitz_sent : ResponseType → Bytes → Daemon → Daemon
with_nitz_sent type bytes d = record d {
  indicated =
      record { type = type; code = 1008; data_sent = some bytes; received = some d.nitz_received }
      ∷ d.indicated;
}

-- A message of the table that is no NITZ time, and has a response function, is sent.
unsolicited_sent :
    (respond : Indication → ℤ) (call : Call) (memory : Bool) (elapsed code : ℕ)
    (data_sent : Option Bytes) (d : Daemon)
    → d.register_called ≡ true
    → is_unsol code ≡ true
    → (code == 1008) ≡ false
    → (code == 1041) ≡ false
    → SameButWake
        (with_sent (unsol_type d code) code data_sent d)
        (ril_on_unsolicited_response respond call memory elapsed code data_sent d)
unfolding ril_on_unsolicited_response call_response_function note_nitz
unsolicited_sent respond call memory elapsed code data_sent d r u e f =
    rw (r, u, e, f)
      (trans-SameButWake (with_sent-SameButWake _ code data_sent (grab-SameButWake call code _))
        (after_response-SameButWake call memory code data_sent _ _ e))

-- the response type of a message that wakes
abbrev pub waking_type : Daemon → ResponseType
waking_type d = if leb 13 d.wake.version then unsolicited_ack_exp else unsolicited

schedule_found :
    (call : Call) (p code : ℕ) (d : Daemon)
    → call.allocated ≡ some p
    → (schedule_timeout call code d).0 ≡ true
unfolding schedule_timeout set_timeout internal_request_timed_callback
schedule_found call p code d a = ground arith

with_nitz-SameButWake :
    {d d' : Daemon} (kept : Option Bytes)
    → SameButWake d d'
    → SameButWake (record d { last_nitz = kept }) (record d' { last_nitz = kept })
with_nitz-SameButWake kept h = record {
  registered = h.registered;
  version = h.version;
  connected = h.connected;
  indicated = h.indicated;
  last_nitz = refl;
  nitz_received = h.nitz_received;
}

with_received-SameButWake :
    {d d' : Daemon} (elapsed : ℕ)
    → SameButWake d d'
    → SameButWake (record d { nitz_received = elapsed }) (record d' { nitz_received = elapsed })
with_received-SameButWake elapsed h = record {
  registered = h.registered;
  version = h.version;
  connected = h.connected;
  indicated = h.indicated;
  last_nitz = h.last_nitz;
  nitz_received = refl;
}

registered_unsol :
    (respond : Indication → ℤ) (call : Call) (memory : Bool) (elapsed : ℕ)
    (data_sent : Option Bytes) (d : Daemon)
    → d.register_called ≡ true
    → ril_on_unsolicited_response respond call memory elapsed 1008 data_sent d
      ≡ after_response call memory 1008 data_sent (
          call_response_function respond
            (unsol_type d 1008)
            1008
            data_sent
            (record (grab_for call 1008 d) { nitz_received = elapsed }))
unfolding ril_on_unsolicited_response note_nitz
registered_unsol respond call memory elapsed data_sent d r = ap (λ x. if not x then d else rest) r
  where
    rest : Daemon
    rest = after_response call memory 1008 data_sent (
        call_response_function respond (unsol_type d 1008) 1008 data_sent
          (record (grab_for call 1008 d) { nitz_received = elapsed }))

no_client :
    (respond : Indication → ℤ) (type : ResponseType) (data_sent : Option Bytes) (d : Daemon)
    → d.connected ≡ false
    → call_response_function respond type 1008 data_sent d ≡ (negsuc 0, d)
unfolding call_response_function nitz_time_received_ind
no_client respond type data_sent d c =
    ap (λ x. if x then (pos 0, send_nitz type data_sent d) else (negsuc 0, d)) c

after_no_client :
    (call : Call) (data_sent : Bytes) (d : Daemon)
    → (schedule_timeout call 1008 d).0 ≡ true
    → after_response call true 1008 (some data_sent) (negsuc 0, d)
      ≡ record (schedule_timeout call 1008 d).1 { last_nitz = some data_sent }
unfolding after_response keep_nitz exit_by
after_no_client call data_sent d e = rw e refl

-- With no client, a NITZ time that is not empty is kept, in place of an older one.
nitz_kept :
    (respond : Indication → ℤ) (call : Call) (p elapsed : ℕ) (data_sent : Bytes) (d : Daemon)
    → d.register_called ≡ true
    → d.connected ≡ false
    → call.allocated ≡ some p
    → SameButWake
        (record d { last_nitz = some data_sent; nitz_received = elapsed })
        (ril_on_unsolicited_response respond call true elapsed 1008 (some data_sent) d)
nitz_kept respond call p elapsed data_sent d r c a = subst (SameButWake _) (sym computed) (
    with_nitz-SameButWake (some data_sent) (
      trans-SameButWake (with_received-SameButWake elapsed (grab-SameButWake call 1008 d))
        (schedule-SameButWake call 1008 grabbed)))
  where
    grabbed : Daemon
    grabbed = record (grab_for call 1008 d) { nitz_received = elapsed }

    computed :
        ril_on_unsolicited_response respond call true elapsed 1008 (some data_sent) d
        ≡ record (schedule_timeout call 1008 grabbed).1 { last_nitz = some data_sent }
    computed =
        registered_unsol respond call true elapsed (some data_sent) d r
        ∙ ap (after_response call true 1008 (some data_sent)) (
            no_client respond _ (some data_sent) grabbed
              ((grab-SameButWake call 1008 d).connected ∙ c))
        ∙ after_no_client call data_sent grabbed (schedule_found call p 1008 grabbed a)

-- A client that connects is sent the kept time, and it is kept no longer.
resend_kept :
    (b : ℕ) (bs : Bytes) (d : Daemon)
    → d.connected ≡ true
    → d.last_nitz ≡ some (b ∷ bs)
    → resend_last_nitz_time_data d
      ≡ with_nitz_sent (waking_type d) (b ∷ bs) (record d { last_nitz = none })
unfolding resend_last_nitz_time_data free_nitz nitz_time_received_ind send_nitz
resend_kept b bs d c k = rw (k, c) refl

waking-unsol :
    (code : ℕ) (d : Daemon) → wakes_partially code ≡ true → unsol_type d code ≡ waking_type d
unfolding unsol_type
waking-unsol code d h = ground arith

waking-same : (d d' : Daemon) → d'.wake.version ≡ d.wake.version → waking_type d' ≡ waking_type d
waking-same d d' h = ap (λ v. if leb 13 v then unsolicited_ack_exp else unsolicited) h

-- what a message is recorded as
abbrev pub indication : ResponseType → ℕ → Option Bytes → Option ℕ → Indication
indication type code data_sent received = record {
  type = type;
  code = code;
  data_sent = data_sent;
  received = received;
}

-- Where a NITZ time that is not empty comes while no client is connected, and memory is found for
-- it, the next client to connect is sent the RIL version, the change of the radio state and that
-- time with the moment it was received, in this order and nothing more, and the time is kept no longer.
pub nitz_reaches_client :
    (respond : Indication → ℤ) (call first second : Call) (p elapsed b : ℕ) (bs version : Bytes)
    (d : Daemon)
    → d.register_called ≡ true
    → d.connected ≡ false
    → call.allocated ≡ some p
    → ((on_new_command_connect respond first second version
          (record (ril_on_unsolicited_response respond call true elapsed 1008 (some (b ∷ bs)) d) {
            connected = true;
          })).indicated
        ≡ indication (waking_type d) 1008 (some (b ∷ bs)) (some elapsed)
          ∷ indication (waking_type d) 1000 none none
          ∷ indication (waking_type d) 1034 (some version) none
          ∷ d.indicated)
      × ((on_new_command_connect respond first second version
            (record (ril_on_unsolicited_response respond call true elapsed 1008 (some (b ∷ bs)) d) {
              connected = true;
            })).last_nitz
          ≡ none)
unfolding on_new_command_connect wakes_partially
nitz_reaches_client respond call first second p elapsed b bs version d r c a =
    rw
      (resend_kept b bs d4 (s4.connected ∙ s3.connected)
        (s4.last_nitz ∙ s3.last_nitz ∙ s1.last_nitz))
      (
        ap₂ (λ i sent. i ∷ sent)
            (ap₂ (λ t at. indication t 1008 (some (b ∷ bs)) (some at))
              (waking-same d d4 (s4.version ∙ s3.version ∙ s1.version))
              (s4.nitz_received ∙ s3.nitz_received ∙ s1.nitz_received))
            (s4.indicated
              ∙ ap₂ (λ t sent. indication t 1000 none none ∷ sent)
                  (waking-unsol 1000 d3 refl ∙ waking-same d d3 (s3.version ∙ s1.version))
                  (s3.indicated
                    ∙ ap₂ (λ t sent. indication t 1034 (some version) none ∷ sent)
                        (waking-unsol 1034 d2 refl ∙ waking-same d d2 s1.version) s1.indicated)),
        refl,
      )
  where
    d1 : Daemon
    d1 = ril_on_unsolicited_response respond call true elapsed 1008 (some (b ∷ bs)) d

    s1 : SameButWake (record d { last_nitz = some (b ∷ bs); nitz_received = elapsed }) d1
    s1 = nitz_kept respond call p elapsed (b ∷ bs) d r c a

    d2 : Daemon
    d2 = record d1 { connected = true }

    d3 : Daemon
    d3 = ril_on_unsolicited_response respond first true 0 1034 (some version) d2

    s3 : SameButWake (with_sent (unsol_type d2 1034) 1034 (some version) d2) d3
    s3 =
        unsolicited_sent respond first true 0 1034 (some version) d2 (s1.registered ∙ r) refl refl
          refl

    d4 : Daemon
    d4 = ril_on_unsolicited_response respond second true 0 1000 none d3

    s4 : SameButWake (with_sent (unsol_type d3 1000) 1000 none d3) d4
    s4 =
        unsolicited_sent respond second true 0 1000 none d3 (s3.registered ∙ s1.registered ∙ r) refl
          refl refl
