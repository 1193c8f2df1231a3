-- ===== src/Follow/Current.antt =====
-- A client that follows the devices of the hub is told of every change.
use adbproxy_rs.Base.{
  ℕ, suc, ◌≡◌, ◌∙◌, refl, sym, ap, Bool, Option, none, some, List, [], ◌∷◌, ◌++◌, All, append-nil,
  append_assoc, subst, arith, Bool-cases, inl, inr, ◌⊎◌,
}
use adbproxy_rs.Text.{Text}
use adbproxy_rs.Types.{BackendConfig, DeviceSnapshot}
use adbproxy_rs.Config.{HubPolicySnapshot}
use adbproxy_rs.Poller.{update_from_backend_lists}
use adbproxy_rs.Text.{Bytes}
use adbproxy_rs.Follow.{
  Notice, changed, lagged, closed, Heard, waiting, follow, follow_loop, list_packet, behind,
}
use adbproxy_rs.Protocol.{write_okay}
use adbproxy_rs.Follow.Unchanged.{body_of, update-body_of}
use adbproxy_rs.Follow.Steps.{
  Follower, told, answer, Step, writes, notifies, begins, takes, lags, answers, Reach, here, next,
  subscribed,
}

-- A list that was sent, behind a notice that is not the end.
abbrev IsOpen : Notice → Type 0
IsOpen changed = Unit
IsOpen lagged = Unit
IsOpen closed = ⊥

abbrev IsOpenIn : Option Notice → Type 0
IsOpenIn none = Unit
IsOpenIn (some n) = IsOpen n

IsSent : Heard → Type 0
IsSent h = IsOpen h.notice × (h.refused ≡ none)

-- The last list that was sent.
abbrev last_body : Text → List Heard → Text
last_body t [] = t
last_body t (h ∷ hs) = last_body h.body hs

last_body-push : (t : Text) (hs : List Heard) (h : Heard) → last_body t (hs ++ (h ∷ [])) ≡ h.body
last_body-push t [] h = refl
last_body-push t (x ∷ hs) h = last_body-push x.body hs h

All-push : (hs : List Heard) (h : Heard) → All IsSent hs → IsSent h → All IsSent (hs ++ (h ∷ []))
All-push [] h a b = (b, tt)
All-push (x ∷ hs) h (a, rest) b = (a, All-push hs h rest b)

-- Where nothing is on its way, the last list is the present one.
IsCurrent : HubPolicySnapshot → Bool → Follower → Type 0
IsCurrent p long s =
    (t : Text)
    → s.first ≡ some t
    → s.unsent ≡ 0
    → s.notices ≡ 0
    → s.taken ≡ none
    → last_body t s.heard ≡ body_of p long s.registry

-- Every list is sent, and what is taken is not the end.
IsFed : Follower → Type 0
IsFed s = All IsSent s.heard × ((n : Notice) → s.taken ≡ some n → IsOpen n)

Step-IsFed :
    (p : HubPolicySnapshot) (long : Bool) {s u : Follower} → Step p long s u → IsFed s → IsFed u
unfolding IsFed IsSent
Step-IsFed p long (writes lists s) h = h
Step-IsFed p long (notifies left s e) h = h
Step-IsFed p long (begins s e) h = h
Step-IsFed p long (takes left s t e f g) (all_sent, h) = (all_sent, λ n q. subst IsOpenIn q tt)
Step-IsFed p long (lags lost left s t e f g) (all_sent, h) = (all_sent, λ n q. subst IsOpenIn q tt)
Step-IsFed p long (answers n s e) (all_sent, h) =
    (All-push s.heard (answer p long s n) all_sent (h n e, refl), λ m q. absurd (nothing q))
  where
    nothing : {m : Notice} → none ≡ some m → ⊥
    nothing q = cc

-- Nothing is answered before the first list.
IsUnstarted : Follower → Type 0
IsUnstarted s = s.first ≡ none → (s.heard ≡ []) × (s.taken ≡ none)

Step-IsUnstarted :
    (p : HubPolicySnapshot) (long : Bool) {s u : Follower}
    → Step p long s u
    → IsUnstarted s
    → IsUnstarted u
unfolding IsUnstarted
Step-IsUnstarted p long (writes lists s) h = h
Step-IsUnstarted p long (notifies left s e) h = h
Step-IsUnstarted p long (begins s e) h = λ q. ground arith
Step-IsUnstarted p long (takes left s t e f g) h = λ q. ground arith
Step-IsUnstarted p long (lags lost left s t e f g) h = λ q. ground arith
Step-IsUnstarted p long (answers n s e) h = λ q. ground (arith, (h q).1)

writes-IsCurrent :
    (p : HubPolicySnapshot) (long : Bool) (lists : List (BackendConfig × Text)) (s : Follower)
    → IsCurrent p long s
    → IsCurrent p long (record s {
      registry = (update_from_backend_lists s.registry lists).0;
      unsent = told (update_from_backend_lists s.registry lists).1 s.unsent;
    })
unfolding IsCurrent
writes-IsCurrent p long lists s h t first all_sent none_left idle =
    elim (Bool-cases (update_from_backend_lists s.registry lists).1) [
      | inl e ↦ absurd (one_left (rw e at all_sent))
      | inr e ↦
          h t first (rw e at all_sent) none_left idle
          ∙ sym (update-body_of p long s.registry lists e)
    ]
  where
    one_left : {n : ℕ} → suc n ≡ 0 → ⊥
    one_left q = omega (arith, q)

Step-IsCurrent :
    (p : HubPolicySnapshot) (long : Bool) {s u : Follower}
    → Step p long s u
    → IsUnstarted s
    → IsCurrent p long s
    → IsCurrent p long u
unfolding IsCurrent IsUnstarted
Step-IsCurrent p long (writes lists s) k h = writes-IsCurrent p long lists s h
Step-IsCurrent p long (notifies left s e) k h = λ t first all_sent none_left idle. ground arith
Step-IsCurrent p long (begins s e) k h = λ t first all_sent none_left idle.
    (let same : body_of p long s.registry ≡ t = ground arith in rw ((k e).0, same) refl)
Step-IsCurrent p long (takes left s t e f g) k h = λ t' first all_sent none_left idle. ground arith
Step-IsCurrent p long (lags lost left s t e f g) k h =
    λ t' first all_sent none_left idle. ground arith
Step-IsCurrent p long (answers n s e) k h =
    λ t first all_sent none_left idle. last_body-push t s.heard (answer p long s n)

IsSound : HubPolicySnapshot → Bool → Follower → Type 0
IsSound p long s = IsFed s × IsUnstarted s × IsCurrent p long s

nothing {ℓ} : {A : Type ℓ} {a : A} → none ≡ some a → ⊥
nothing q = cc

subscribed-IsSound :
    (p : HubPolicySnapshot) (long : Bool) (registry : DeviceSnapshot) (unsent : ℕ)
    → IsSound p long (subscribed registry unsent)
unfolding IsSound IsFed IsUnstarted IsCurrent
subscribed-IsSound p long registry unsent = (
  (tt, λ n q. absurd (nothing q)),
  λ q. (refl, refl),
  λ t first all_sent none_left idle. absurd (nothing first),
)

Reach-IsSound :
    (p : HubPolicySnapshot) (long : Bool) {s u : Follower}
    → Reach p long s u
    → IsSound p long s
    → IsSound p long u
unfolding IsSound
Reach-IsSound p long here h = h
Reach-IsSound p long (next r st) h =
    let (fed, unstarted, current) = Reach-IsSound p long r h in
    (
      Step-IsFed p long st fed,
      Step-IsUnstarted p long st unstarted,
      Step-IsCurrent p long st unstarted current,
    )

Notice-cases : (n : Notice) → (n ≡ changed) ⊎ ((n ≡ lagged) ⊎ (n ≡ closed))
Notice-cases changed = inl refl
Notice-cases lagged = inr (inl refl)
Notice-cases closed = inr (inr refl)

loop_sent :
    (h : Heard) (hs : List Heard)
    → IsOpen h.notice
    → h.refused ≡ none
    → follow_loop (h ∷ hs) ≡ behind (list_packet h.body) (follow_loop hs)
unfolding follow_loop
loop_sent h hs goes_on taken = elim (Notice-cases h.notice) [
  | inl e ↦ rw (e, taken) refl
  | inr (inl e) ↦ rw (e, taken) refl
  | inr (inr e) ↦ absurd (subst IsOpen e goes_on)
]

-- What the loop writes ends with the last list.
tail_sent :
    (t : Text) (hs : List Heard)
    → All IsSent hs
    → (out : Bytes) × (behind (list_packet t) (follow_loop hs)
        ≡ (out ++ list_packet (last_body t hs), waiting))
unfolding follow_loop IsSent
tail_sent t [] h = ([], ap (λ bs. (bs, waiting)) (append-nil (list_packet t)))
tail_sent t (h ∷ hs) ((goes_on, taken), rest) =
    let (out, e) = tail_sent h.body hs rest in
    (
      list_packet t ++ out,
      ap (behind (list_packet t)) (loop_sent h hs goes_on taken)
          ∙ (ap (behind (list_packet t)) e
              ∙ ap (λ bs. (bs, waiting)) (sym (append_assoc (list_packet t) out _))),
    )

-- While the policy stays as it is and a client of the hub that follows the devices takes its lists, the bytes that the loop
-- of `track_devices` has written end with the list of the present registry, and the loop waits for more, whenever the first
-- list was sent and nothing is on its way: no change that was written and not told, no notice that waits, and none that was
-- taken and not answered. That is so whatever the backends sent in between, also between the subscription and the first
-- list, between a change and its notice, and between a notice and the list for it, and when notices were lost.
pub Reach-current :
    (p : HubPolicySnapshot) (long : Bool) (registry : DeviceSnapshot) (unsent : ℕ) {s : Follower}
    (t : Text)
    → Reach p long (subscribed registry unsent) s
    → s.first ≡ some t
    → s.unsent ≡ 0
    → s.notices ≡ 0
    → s.taken ≡ none
    → (out : Bytes) × (follow t s.heard ≡ (out ++ list_packet (body_of p long s.registry), waiting))
unfolding IsSound IsFed IsCurrent follow
Reach-current p long registry unsent {s} t r first all_sent none_left idle =
    let ((sent, taken), unstarted, current) =
      Reach-IsSound p long r (subscribed-IsSound p long registry unsent) in
    let (out, e) = tail_sent t s.heard sent in
    (
      write_okay ++ out,
      ap (behind write_okay) e
          ∙ (ap (λ bs. (bs, waiting)) (sym (append_assoc write_okay out _))
              ∙ ap (λ x. ((write_okay ++ out) ++ list_packet x, waiting))
                  (current t first all_sent none_left idle)),
    )
