-- ===== src/Session/Receive/Stored.antt =====
-- What the session stores from the wire is in bounds, whatever the packets.
use votv_mp.Base.{
  ℕ, zero, suc, ◌<◌, ◌≤◌, ◌≡◌, true, List, [], ◌∷◌, subst, sym, length, length-append, arith, All,
  All-append, take, drop,
}
use votv_mp.Protocol.{validate_pose, validate_prop_pose, max_reliable_payload, u16_at}
use votv_mp.ElementId.{max_peers}
use votv_mp.Session.{Gns, Session, ReliableMessage}
use votv_mp.Session.Receive.{inbox_cap, message_of, handle_message}
use votv_mp.Session.Receive.Cases.{Kept, handle_message-keeps}

abbrev pub SmallMessage : ReliableMessage → Type 0
SmallMessage m = (length m.payload ≤ max_reliable_payload) × (m.sender_peer_slot < max_peers)

-- Stored poses have passed their checks; the inbox is within its cap, and each queued message has a
-- payload that fits a datagram and names a real slot.
pub record StoredValid (s : Session) : Type 0 where
  pub poses : (i : ℕ) → (s.remotes i).has_remote ≡ true → validate_pose (s.remotes i).pose ≡ true
  pub props :
      (i : ℕ)
      → (s.remotes i).has_remote_prop ≡ true
      → validate_prop_pose (s.remotes i).prop_pose ≡ true
  pub bounded : length s.inbox ≤ inbox_cap
  pub messages : All SmallMessage s.inbox

length-take_le : (n : ℕ) (xs : List ℕ) → length (take n xs) ≤ n
length-take_le zero xs = omega arith
length-take_le (suc n) [] = omega arith
length-take_le (suc n) (x ∷ xs) = omega (arith, length-take_le n xs)

message_of-small :
    (r : ℕ) (bytes : List ℕ)
    → u16_at bytes 24 ≤ max_reliable_payload
    → r < max_peers
    → SmallMessage (message_of r bytes)
unfolding message_of
message_of-small r bytes h lt =
    (omega (arith, length-take_le (u16_at bytes 24) (drop 28 bytes)), lt)

pub Kept-StoredValid : (slot : ℕ) (bytes : List ℕ) → Kept StoredValid slot bytes
Kept-StoredValid slot bytes = record {
  quiet = λ s t q v. record {
    poses = λ i.
        subst (λ r. (r i).has_remote ≡ true → validate_pose (r i).pose ≡ true) (sym q.remotes)
          (v.poses i);
    props = λ i.
        subst (λ r. (r i).has_remote_prop ≡ true → validate_prop_pose (r i).prop_pose ≡ true)
          (sym q.remotes) (v.props i);
    bounded = subst (λ b. length b ≤ inbox_cap) (sym q.inbox) v.bounded;
    messages = subst (All SmallMessage) (sym q.inbox) v.messages;
  };
  received = λ s v. record {
    poses = v.poses;
    props = v.props;
    bounded = v.bounded;
    messages = v.messages;
  };
  latch = λ s h parsed real open_slot v. record {
    poses = λ i e. ground (arith, v.poses i, v.poses slot);
    props = λ i e. ground (arith, v.props i, v.props slot);
    bounded = v.bounded;
    messages = v.messages;
  };
  pose = λ s h r a good new v. record {
    poses = λ i e. ground (arith, v.poses i, good);
    props = λ i e. ground (arith, v.props i, v.props r);
    bounded = v.bounded;
    messages = v.messages;
  };
  prop_pose = λ s h r a good new v. record {
    poses = λ i e. ground (arith, v.poses i, v.poses r);
    props = λ i e. ground (arith, v.props i, good);
    bounded = v.bounded;
    messages = v.messages;
  };
  queue = λ s h r a room fits whole v. record {
    poses = v.poses;
    props = v.props;
    bounded = omega (arith, length-append s.inbox (message_of r bytes ∷ []));
    messages =
        All-append SmallMessage s.inbox (message_of r bytes ∷ []) v.messages
          (message_of-small r bytes fits a.in_range, tt);
  };
}

-- Whatever bytes arrive on whatever slot, in either role: if every stored pose and prop pose has
-- passed its range checks, the inbox is within its 8192 messages, and every queued message names a
-- slot below 4 and has a payload of at most 228 bytes, then all that holds after HandleMessage.
pub handle_message-StoredValid :
    (g : Gns) (s : Session) (slot : ℕ) (bytes : List ℕ)
    → StoredValid s
    → StoredValid (handle_message g s slot bytes)
handle_message-StoredValid g s slot bytes v =
    handle_message-keeps StoredValid g slot bytes (Kept-StoredValid slot bytes) s v
