-- ===== src/AbstractNode/Collective/History.antt =====
-- Requests, messages and callbacks as a history, and which request each message of
-- even-http/ps/core/abstract_node.cc is for.
use rpc.Common.{
  ℕ, suc, ◌≤◌, ◌<◌, ◌≡◌, refl, Bool, true, false, ◌&&◌, ◌||◌, Option, none, some, List, [], ◌∷◌,
  length, if◌then◌else◌, nat_beq, nat_eq, tag_eq, arith,
}
use rpc.AbstractNode.Collective.{Event, receives, arrives, calls_back}

-- A history has the latest event first. How often data of a rank were asked for, and how many of its
-- messages came in.
abbrev pub receive_count : ℕ → List Event → ℕ
receive_count r [] = 0
receive_count r (receives s o ∷ h) =
    if nat_beq s r then suc (receive_count r h) else receive_count r h
receive_count r (arrives s d ∷ h) = receive_count r h
receive_count r (calls_back t ∷ h) = receive_count r h

abbrev pub arrival_count : ℕ → List Event → ℕ
arrival_count r [] = 0
arrival_count r (receives s o ∷ h) = arrival_count r h
arrival_count r (arrives s d ∷ h) =
    if nat_beq s r then suc (arrival_count r h) else arrival_count r h
arrival_count r (calls_back t ∷ h) = arrival_count r h

-- Where the `i`-th request for rank `r` wants its data, counted from 1, and the rank's `i`-th message.
abbrev pub nth_receive : ℕ → ℕ → List Event → Option ℕ
nth_receive r i [] = none
nth_receive r i (receives s o ∷ h) =
    if nat_beq s r && nat_beq i (suc (receive_count s h)) then some o else nth_receive r i h
nth_receive r i (arrives s d ∷ h) = nth_receive r i h
nth_receive r i (calls_back t ∷ h) = nth_receive r i h

abbrev pub nth_arrival : ℕ → ℕ → List Event → Option (List ℕ)
nth_arrival r i [] = none
nth_arrival r i (receives s o ∷ h) = nth_arrival r i h
nth_arrival r i (arrives s d ∷ h) =
    if nat_beq s r && nat_beq i (suc (arrival_count s h)) then some d else nth_arrival r i h
nth_arrival r i (calls_back t ∷ h) = nth_arrival r i h

-- Whether a request wants its data in variable `o`.
abbrev pub used : ℕ → List Event → Bool
used o [] = false
used o (receives s p ∷ h) = nat_beq p o || used o h
used o (arrives s d ∷ h) = used o h
used o (calls_back t ∷ h) = used o h

pub nth_receive_past : (r i : ℕ) (h : List Event) → receive_count r h < i → nth_receive r i h ≡ none
nth_receive_past r i [] l = refl
nth_receive_past r i (receives s o ∷ h) l = ground (arith, nth_receive_past r i h)
nth_receive_past r i (arrives s d ∷ h) l = nth_receive_past r i h l
nth_receive_past r i (calls_back t ∷ h) l = nth_receive_past r i h l

pub nth_arrival_past : (r i : ℕ) (h : List Event) → arrival_count r h < i → nth_arrival r i h ≡ none
nth_arrival_past r i [] l = refl
nth_arrival_past r i (receives s o ∷ h) l = nth_arrival_past r i h l
nth_arrival_past r i (arrives s d ∷ h) l = ground (arith, nth_arrival_past r i h)
nth_arrival_past r i (calls_back t ∷ h) l = nth_arrival_past r i h l

pub receive_count_le : (r : ℕ) (h : List Event) → receive_count r h ≤ length h
receive_count_le r [] = omega arith
receive_count_le r (receives s o ∷ h) = ground (arith, receive_count_le r h)
receive_count_le r (arrives s d ∷ h) = omega (arith, receive_count_le r h)
receive_count_le r (calls_back t ∷ h) = omega (arith, receive_count_le r h)

pub arrival_count_le : (r : ℕ) (h : List Event) → arrival_count r h ≤ length h
arrival_count_le r [] = omega arith
arrival_count_le r (receives s o ∷ h) = omega (arith, arrival_count_le r h)
arrival_count_le r (arrives s d ∷ h) = ground (arith, arrival_count_le r h)
arrival_count_le r (calls_back t ∷ h) = omega (arith, arrival_count_le r h)

pub nth_receive-used : (r i o : ℕ) (h : List Event) → nth_receive r i h ≡ some o → used o h ≡ true
nth_receive-used r i o [] e = absurd (ground arith)
nth_receive-used r i o (receives s p ∷ h) e = ground (arith, nth_receive-used r i o h)
nth_receive-used r i o (arrives s d ∷ h) e = nth_receive-used r i o h e
nth_receive-used r i o (calls_back t ∷ h) e = nth_receive-used r i o h e

abbrev pub is_some {ℓ} : {A : Type ℓ} → Option A → Bool
is_some none = false
is_some (some a) = true
