-- ===== src/Session/Receive/Origin.antt =====
-- On the host the origin of data is the connection it came on, whatever its header says.
use votv_mp.Base.{
  ℕ, ◌≡◌, ◌≢◌, refl, ◌∙◌, List, [], ◌∷◌, ◌++◌, All, All-append, append_nil, append_assoc, arith,
  if◌then◌else◌, ap, sym,
}
use votv_mp.Protocol.{PacketHeader}
use votv_mp.Session.{Gns, Session, ReliableMessage, host, is_host}
use votv_mp.Session.Receive.{handle_message, message_of, route_slot}
use votv_mp.Session.Receive.Cases.{Kept, handle_message-keeps, Admitted}

-- `t` differs from `s` in what the session holds of the slot only; the messages queued since are
-- that slot's.
pub record OnlyFrom (slot : ℕ) (s t : Session) : Type 0 where
  pub role : t.role ≡ host
  pub conns : t.peer_conns ≡ s.peer_conns
  pub others : (i : ℕ) → i ≢ slot → t.remotes i ≡ s.remotes i
  pub queued : List ReliableMessage
  pub inbox : t.inbox ≡ s.inbox ++ queued
  pub senders : All (λ m. m.sender_peer_slot ≡ slot) queued

own_route :
    (slot : ℕ) (bytes : List ℕ) (s : Session) (h : PacketHeader) (r : ℕ)
    → s.role ≡ host
    → Admitted slot bytes s h r
    → r ≡ slot
unfolding route_slot
own_route slot bytes s h r role a =
    a.origin ∙ ap (λ x. if is_host x then slot else h.sender_slot) role

Kept-OnlyFrom : (slot : ℕ) (bytes : List ℕ) (s : Session) → Kept (OnlyFrom slot s) slot bytes
Kept-OnlyFrom slot bytes s = record {
  quiet = λ t u q v. record {
    role = q.role ∙ v.role;
    conns = q.peer_conns ∙ v.conns;
    others = λ i ne. ap (λ r. r i) q.remotes ∙ v.others i ne;
    queued = v.queued;
    inbox = q.inbox ∙ v.inbox;
    senders = v.senders;
  };
  received = λ t v. record {
    role = v.role;
    conns = v.conns;
    others = v.others;
    queued = v.queued;
    inbox = v.inbox;
    senders = v.senders;
  };
  latch = λ t h parsed real open_slot v. record {
    role = v.role;
    conns = v.conns;
    others = λ i ne. ground (arith, v.others i ne);
    queued = v.queued;
    inbox = v.inbox;
    senders = v.senders;
  };
  pose = λ t h r a good new v. record {
    role = v.role;
    conns = v.conns;
    others = λ i ne. ground (arith, v.others i ne, own_route slot bytes t h r v.role a);
    queued = v.queued;
    inbox = v.inbox;
    senders = v.senders;
  };
  prop_pose = λ t h r a good new v. record {
    role = v.role;
    conns = v.conns;
    others = λ i ne. ground (arith, v.others i ne, own_route slot bytes t h r v.role a);
    queued = v.queued;
    inbox = v.inbox;
    senders = v.senders;
  };
  queue = λ t h r a room fits whole v. record {
    role = v.role;
    conns = v.conns;
    others = v.others;
    queued = v.queued ++ message_of r bytes ∷ [];
    inbox =
        ap (λ x. x ++ message_of r bytes ∷ []) v.inbox
        ∙ append_assoc s.inbox v.queued (message_of r bytes ∷ []);
    senders =
        All-append (λ m. m.sender_peer_slot ≡ slot) v.queued (message_of r bytes ∷ []) v.senders
          (unfold message_of in own_route slot bytes t h r v.role a, tt);
  };
}

-- On the host, whatever a packet on a slot says of its sender: the stored state of every other slot
-- stays, the slot table stays, and the messages added to the inbox all name that slot as sender.
pub handle_message-OnlyFrom :
    (g : Gns) (s : Session) (slot : ℕ) (bytes : List ℕ)
    → s.role ≡ host
    → OnlyFrom slot s (handle_message g s slot bytes)
handle_message-OnlyFrom g s slot bytes role =
    handle_message-keeps (OnlyFrom slot s) g slot bytes (Kept-OnlyFrom slot bytes s) s (record {
      role = role;
      conns = refl;
      others = λ i ne. refl;
      queued = [];
      inbox = sym (append_nil s.inbox);
      senders = tt;
    })
