-- ===== src/HotTier/Channel.antt =====
-- The bounded channel of crossbeam, as far as the agents use it, its documented behaviour, and a
-- channel that has it.
use mathlib.Core.List.{append-nil, append_assoc}
use atlas_hpc.Base.{
  ℕ, zero, suc, ◌+◌, ◌-◌, ◌<◌, ◌≡◌, refl, sym, ◌∙◌, ap, Option, none, some, List, [], ◌∷◌, ◌++◌,
  take, arith,
}

-- `try_send`, whose result the code drops.
pub record Sender (S C : Type 0) : Type 0 where
  pub try_send : S → C → C

-- `accepted` is all that was ever taken, `room` the free slots. A full channel loses the message.
pub record IsBounded {S C : Type 0} (sender : Sender S C) : Type 0 where
  pub accepted : C → List S
  pub room : C → ℕ
  pub accepted-send :
      (x : S) (c : C) → accepted (sender.try_send x c) ≡ accepted c ++ take (room c) (x ∷ [])
  pub room-send : (x : S) (c : C) → room (sender.try_send x c) ≡ room c - 1

unfoldable pub send_all : {S C : Type 0} → Sender S C → List S → C → C
send_all sender [] c = c
send_all sender (x ∷ xs) c = send_all sender xs (sender.try_send x c)

take_one :
    {S : Type 0} (n : ℕ) (x : S) (xs : List S)
    → take n (x ∷ []) ++ take (n - 1) xs ≡ take n (x ∷ xs)
take_one zero x xs = ground arith
take_one (suc zero) x xs = refl
take_one {S} (suc (suc n)) x xs =
    let e : suc (suc n) - 1 ≡ suc n = omega arith in ap (λ k. x ∷ take {A = S} k xs) e

pub take_nil : {S : Type 0} (n : ℕ) → take {A = S} n [] ≡ []
take_nil zero = refl
take_nil (suc n) = refl

-- The first messages find the free slots, and the rest are lost.
pub send_all_lem :
    {S C : Type 0} (sender : Sender S C) (b : IsBounded sender) (xs : List S) (c : C)
    → b.accepted (send_all sender xs c) ≡ b.accepted c ++ take (b.room c) xs
unfolding send_all
send_all_lem sender b [] c =
    sym (append-nil (b.accepted c)) ∙ ap (◌++◌ (b.accepted c)) (sym (take_nil (b.room c)))
send_all_lem sender b (x ∷ xs) c =
    let n = b.room c in
    send_all_lem sender b xs (sender.try_send x c)
    ∙ rw (b.accepted-send x c) (rw (b.room-send x c) refl)
    ∙ append_assoc (b.accepted c) (take n (x ∷ [])) (take (n - 1) xs)
    ∙ ap (◌++◌ (b.accepted c)) (take_one n x xs)

pub send_all-append :
    {S C : Type 0} (sender : Sender S C) (xs ys : List S) (c : C)
    → send_all sender (xs ++ ys) c ≡ send_all sender ys (send_all sender xs c)
unfolding send_all
send_all-append sender [] ys c = refl
send_all-append sender (x ∷ xs) ys c = send_all-append sender xs ys (sender.try_send x c)

-- Both ends of a channel: `bounded`, and `recv`, which waits while the channel is empty.
pub record Channel (S C : Type 0) : Type 0 where
  pub bounded : ℕ → C
  pub sender : Sender S C
  pub recv : C → Option S × C

-- `queued` is what was taken and not handed out yet. Messages come out in the order in which they
-- were taken, and each gives its slot back. A channel of capacity 0 is a rendezvous, and is left out.
pub record IsChannel {S C : Type 0} (ch : Channel S C) : Type 0 where
  pub queued : C → List S
  pub room : C → ℕ
  pub queued-bounded : (capacity : ℕ) → 0 < capacity → queued (ch.bounded capacity) ≡ []
  pub room-bounded : (capacity : ℕ) → 0 < capacity → room (ch.bounded capacity) ≡ capacity
  pub queued-send :
      (x : S) (c : C) → queued (ch.sender.try_send x c) ≡ queued c ++ take (room c) (x ∷ [])
  pub room-send : (x : S) (c : C) → room (ch.sender.try_send x c) ≡ room c - 1
  pub recv_none : (c : C) → queued c ≡ [] → ch.recv c ≡ (none, c)
  pub recv_some :
      (x : S) (xs : List S) (c : C)
      → queued c ≡ x ∷ xs
      → ((ch.recv c).0 ≡ some x) × (queued (ch.recv c).1 ≡ xs) × (room (ch.recv c).1 ≡ room c + 1)

-- A list and the number of its free slots.
abbrev pub list_sender : {S : Type 0} → Sender S (List S × ℕ)
list_sender = record { try_send = λ x c. (c.0 ++ take c.1 (x ∷ []), c.1 - 1) }

abbrev pub list_sender-IsBounded : {S : Type 0} → IsBounded (list_sender {S = S})
list_sender-IsBounded = record {
  accepted = λ c. c.0;
  room = λ c. c.1;
  accepted-send = λ x c. refl;
  room-send = λ x c. refl;
}

abbrev pub list_recv : {S : Type 0} → List S × ℕ → Option S × (List S × ℕ)
list_recv ([], n) = (none, ([], n))
list_recv (x ∷ xs, n) = (some x, (xs, n + 1))

abbrev pub list_channel : {S : Type 0} → Channel S (List S × ℕ)
list_channel = record {
  bounded = λ capacity. ([], capacity);
  sender = list_sender;
  recv = list_recv;
}

pub list_recv-none : {S : Type 0} (c : List S × ℕ) → c.0 ≡ [] → list_recv c ≡ (none, c)
list_recv-none ([], n) h = refl
list_recv-none (x ∷ xs, n) h = cc

pub list_recv-some :
    {S : Type 0} (x : S) (xs : List S) (c : List S × ℕ)
    → c.0 ≡ x ∷ xs
    → ((list_recv c).0 ≡ some x) × ((list_recv c).1.0 ≡ xs) × ((list_recv c).1.1 ≡ c.1 + 1)
list_recv-some x xs ([], n) h = cc
list_recv-some x xs (y ∷ ys, n) h = (cc, cc, refl)

abbrev pub list_channel-IsChannel : {S : Type 0} → IsChannel (list_channel {S = S})
list_channel-IsChannel = record {
  queued = λ c. c.0;
  room = λ c. c.1;
  queued-bounded = λ capacity h. refl;
  room-bounded = λ capacity h. refl;
  queued-send = λ x c. refl;
  room-send = λ x c. refl;
  recv_none = list_recv-none;
  recv_some = list_recv-some;
}
