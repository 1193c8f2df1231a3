-- ===== src/Tunnel/Owners.antt =====
-- That the listeners of an owner are not touched by the transports of others.
use adbproxy_rs.Base.{
  ℕ, ◌≡◌, ◌≢◌, refl, Bool, true, false, Option, none, some, ◌++◌, arith, ==_iff, Bool-cases,
  Option-cases, inl, inr, ◌⊎◌, ◌↔◌, not, if◌then◌else◌,
}
use adbproxy_rs.Text.{Text, Bytes}
use adbproxy_rs.Io.{Result, ok, err, IoError, Result-cases, read_exact}
use adbproxy_rs.Map.ByNumber
use adbproxy_rs.Map.ByNumber.{NumberMap, get-remove, get-insert, get-retain, retain_sound}
use adbproxy_rs.Protocol.{read_packet, read_status}
use adbproxy_rs.Tunnel.{
  Listener, TunnelManager, owner_eq, is_same, listen_on, add_listener, remove_listener, End,
  Transported, ended, scrcpy_forward, killed_port, text_or_empty, forward_answer, pass_request,
  kill_answer, kill_or_pass, serve_request, read_request, refuse, after_okay, transport,
  remove_owner,
}

-- What a bind does: it gives the port that was asked for, or one on which nothing listens yet.
abbrev pub IsBind : (ℕ → Result IoError ℕ) → TunnelManager → Type 0
IsBind bind m =
    (port actual : ℕ) → bind port ≡ ok actual → (actual ≡ port) ⊎ (ByNumber.get actual m ≡ none)

module _ (owner : Option ℕ) (p : ℕ) (l : Listener) (foreign : owner_eq l.owner owner ≡ false) where
  not_same : (serial : Text) → is_same owner serial l ≡ false
  unfolding is_same
  not_same serial = rw foreign refl

  kept-remove_listener :
      (port : ℕ) (serial : Text) (m : TunnelManager)
      → ByNumber.get p m ≡ some l
      → ByNumber.get p (remove_listener port serial owner m).0 ≡ some l
  unfolding remove_listener
  kept-remove_listener port serial m h = elim (Option-cases (ByNumber.get port m)) [
    | inl e ↦ rw (e, remove_listener) h
    | inr (k, e) ↦ elim (Bool-cases (is_same owner serial k)) [
      | inr f ↦ rw (e, remove_listener) (rw f h)
      | inl f ↦
          rw (e, remove_listener)
            (rw f (ground (arith, get-remove port p m, not_same serial, ==_iff port p)))
    ]
  ]

  kept-listen_on :
      (bound : Result IoError ℕ) (serial : Text) (m : TunnelManager)
      → ((actual : ℕ) → bound ≡ ok actual → actual ≢ p)
      → ByNumber.get p m ≡ some l
      → ByNumber.get p (listen_on bound serial owner m).0 ≡ some l
  unfolding listen_on
  kept-listen_on (err e) serial m b h = h
  kept-listen_on (ok actual) serial m b h = ground (
    arith,
    get-insert actual p (record { owner = owner; serial = serial }) m,
    ==_iff actual p,
    b actual refl,
  )

  -- A listener of the owner is on another port.
  other_port :
      (port : ℕ) (serial : Text) (m : TunnelManager) (k : Listener)
      → ByNumber.get port m ≡ some k
      → is_same owner serial k ≡ true
      → ByNumber.get p m ≡ some l
      → port ≢ p
  other_port port serial m k e f h x = ground (arith, not_same serial)

  kept-add_listener :
      (bind : ℕ → Result IoError ℕ) (port : ℕ) (serial : Text) (m : TunnelManager)
      → IsBind bind m
      → ByNumber.get p m ≡ some l
      → ByNumber.get p (add_listener (bind port) port serial owner m).0 ≡ some l
  unfolding add_listener
  kept-add_listener bind port serial m b h = elim (Option-cases (ByNumber.get port m)) [
    | inl e ↦
        rw (e, add_listener)
          (kept-listen_on (bind port) serial m (λ actual x y. ground (arith, b port actual x)) h)
    | inr (k, e) ↦ elim (Bool-cases (is_same owner serial k)) [
      | inr f ↦ rw (e, add_listener) (rw f h)
      | inl f ↦
          let other : port ≢ p = other_port port serial m k e f h in
          rw (e, add_listener)
            (rw f (
              kept-listen_on (bind port) serial (ByNumber.remove port m)
                (λ actual x y. ground (arith, b port actual x, other))
                (ground (arith, get-remove port p m, other, ==_iff port p))))
    ]
  ]

  -- The listener is there, as it was.
  unfoldable Kept : Transported → Type 0
  Kept t = ByNumber.get p t.manager ≡ some l

  Kept-if : (b : Bool) (x y : Transported) → Kept x → Kept y → Kept (if b then x else y)
  Kept-if true x y h k = h
  Kept-if false x y h k = k

  Kept-forward_answer :
      (port : ℕ) (sent : Bytes) (a : TunnelManager × Result IoError ℕ)
      → ByNumber.get p a.0 ≡ some l
      → Kept (forward_answer port sent a)
  unfolding Kept forward_answer
  Kept-forward_answer port sent (m, err e) h = h
  Kept-forward_answer port sent (m, ok actual) h = h

  module _ (bind : ℕ → Result IoError ℕ) (serial : Text) (m : TunnelManager)
      (h : ByNumber.get p m ≡ some l) where
    Kept-ended : (a b : Bytes) (end : End) → Kept (ended m a b end)
    unfolding Kept
    Kept-ended a b end = h

    Kept-kill_answer :
        (sent request : Bytes) (a : TunnelManager × Bool)
        → ByNumber.get p a.0 ≡ some l
        → Kept (kill_answer bind serial owner m sent request a)
    unfolding Kept kill_answer pass_request
    Kept-kill_answer sent request (m', true) k = k
    Kept-kill_answer sent request (m', false) k = h

    Kept-kill_or_pass :
        (sent request : Bytes) (text : Text)
        → Kept (kill_or_pass bind serial owner m sent request text)
    unfolding kill_or_pass pass_request
    Kept-kill_or_pass sent request text = elim (Option-cases (killed_port text)) [
      | inl e ↦ rw (e, kill_or_pass) (Kept-ended _ _ _)
      | inr (port, e) ↦
          rw (e, kill_or_pass)
            (Kept-kill_answer sent request _ (kept-remove_listener port serial m h))
    ]

    module _ (binds : IsBind bind m) where
      Kept-serve_request :
          (sent request : Bytes) → Kept (serve_request bind serial owner m sent request)
      unfolding serve_request
      Kept-serve_request sent request =
          elim (Option-cases (scrcpy_forward (text_or_empty request))) [
            | inl e ↦
                rw (e, serve_request)
                  (Kept-if _ _ _ (Kept-ended _ _ _)
                    (Kept-kill_or_pass sent request (text_or_empty request)))
            | inr ((port, socket), e) ↦
                rw (e, serve_request)
                  (Kept-if _ _ _ (Kept-ended _ _ _) (
                    Kept-forward_answer port sent _ (kept-add_listener bind port serial m binds h)))
          ]

      Kept-read_request :
          (sent client : Bytes) → Kept (read_request bind serial owner m sent client)
      unfolding read_request
      Kept-read_request sent client = elim (Result-cases (read_packet client)) [
        | inr (x, e) ↦ rw (e, read_request) (Kept-ended _ _ _)
        | inl ((request, rest), e) ↦ rw (e, read_request) (Kept-serve_request sent request)
      ]

      Kept-refuse : (status upstream : Bytes) → Kept (refuse bind serial owner m status upstream)
      unfolding refuse
      Kept-refuse status upstream = elim (Result-cases (read_packet upstream)) [
        | inr (x, e) ↦ rw (e, refuse) (Kept-if _ _ _ (Kept-ended _ _ _) (Kept-ended _ _ _))
        | inl ((reason, rest), e) ↦
            rw (e, refuse) (Kept-if _ _ _ (Kept-ended _ _ _) (Kept-ended _ _ _))
      ]

      Kept-after_okay :
          (service : Text) (status upstream client : Bytes)
          → Kept (after_okay bind serial owner m service status upstream client)
      unfolding after_okay
      Kept-after_okay service status upstream client = elim (Result-cases (read_exact 8 upstream)) [
        | inr (x, e) ↦
            rw (e, after_okay) (Kept-if _ _ _ (Kept-ended _ _ _) (Kept-read_request status client))
        | inl ((id, rest), e) ↦
            rw (e, after_okay)
              (Kept-if _ _ _ (Kept-read_request (status ++ id) client)
                (Kept-read_request status client))
      ]

      Kept-transport :
          (service : Text) (client upstream : Bytes)
          → Kept (transport bind serial owner m service client upstream)
      unfolding transport
      Kept-transport service client upstream = elim (Result-cases (read_status upstream)) [
        | inr (x, e) ↦ rw (e, transport) (Kept-ended _ _ _)
        | inl ((status, rest), e) ↦
            rw (e, transport)
              (Kept-if _ _ _ (Kept-after_okay service status rest client) (Kept-refuse status rest))
      ]

-- A transport of one owner leaves every listener of another owner as it is, whatever the client asks for and the
-- device answers, if a bind gives the port that was asked for or one on which nothing listens.
pub transport-foreign :
    (bind : ℕ → Result IoError ℕ) (serial : Text) (owner : Option ℕ) (m : TunnelManager)
    (service : Text) (client upstream : Bytes) (p : ℕ) (l : Listener)
    → IsBind bind m
    → owner_eq l.owner owner ≡ false
    → ByNumber.get p m ≡ some l
    → ByNumber.get p (transport bind serial owner m service client upstream).manager ≡ some l
unfolding Kept
transport-foreign bind serial owner m service client upstream p l binds foreign h =
    Kept-transport owner p l foreign bind serial m h binds service client upstream

-- When an owner leaves, no listener that is left is the owner's, and every listener that is not the
-- owner's is left.
pub remove_owner_iff :
    (u p : ℕ) (m : TunnelManager) (l : Listener)
    → ByNumber.get p m ≡ some l
    → (ByNumber.get p (remove_owner u m) ≡ some l) ↔ (owner_eq l.owner (some u) ≡ false)
unfolding remove_owner
remove_owner_iff u p m l h = (
  λ k.
      ground
        (arith, retain_sound (λ (x : Listener). not (owner_eq x.owner (some u))) p m {v = l} k),
  λ e. get-retain (λ (x : Listener). not (owner_eq x.owner (some u))) p m {v = l} h (rw e refl),
)
