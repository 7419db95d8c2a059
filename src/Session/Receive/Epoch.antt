-- ===== src/Session/Receive/Epoch.antt =====
-- The stale-generation check and the newest-wins test of HandleMessage.
use votv_mp.Base.{
  ℕ, ◌+◌, ◌<◌, ◌≡◌, ◌≢◌, refl, ◌∙◌, ◌-◌, ◌%◌, ◌^◌, some, List, ◌||◌, leb, arith, ◌==◌, ap,
}
use votv_mp.Base.Int.{int32, is_at_most_zero}
use votv_mp.ElementId.{max_peers}
use votv_mp.Protocol.{PacketHeader, parse_header}
use votv_mp.Session.{Gns, Session, next64}
use votv_mp.Session.Receive.{handle_message, admit, is_stale}
use votv_mp.Session.Receive.Cases.{Kept, handle_message-keeps}

Kept-epoch :
    (i e slot : ℕ) (bytes : List ℕ)
    → e ≢ 0
    → Kept (λ s. (s.remotes i).expected_epoch ≡ e) slot bytes
Kept-epoch i e slot bytes nonzero = record {
  quiet = λ s t q v. ap (λ r. (r i).expected_epoch) q.remotes ∙ v;
  received = λ s v. v;
  latch = λ s h parsed real open_slot v. ground arith;
  pose = λ s h r a good new v. ground arith;
  prop_pose = λ s h r a good new v. ground arith;
  queue = λ s h r a room fits whole v. v;
}

-- Once a slot has latched an epoch, no packet on any slot changes it.
pub latched_epoch_kept :
    (g : Gns) (s : Session) (slot i : ℕ) (bytes : List ℕ)
    → (s.remotes i).expected_epoch ≢ 0
    → ((handle_message g s slot bytes).remotes i).expected_epoch ≡ (s.remotes i).expected_epoch
latched_epoch_kept g s slot i bytes nonzero =
    handle_message-keeps (λ t. (t.remotes i).expected_epoch ≡ (s.remotes i).expected_epoch) g slot
      bytes (Kept-epoch i (s.remotes i).expected_epoch slot bytes nonzero) s refl

-- A packet whose epoch is not the one its slot has latched changes the count of received packets
-- and nothing else.
other_generation_dropped :
    (g : Gns) (s : Session) (slot : ℕ) (bytes : List ℕ) (h : PacketHeader)
    → parse_header bytes ≡ some h
    → slot < max_peers
    → (s.remotes slot).expected_epoch ≢ 0
    → h.sender_epoch ≢ (s.remotes slot).expected_epoch
    → handle_message g s slot bytes ≡ record s { recv = next64 s.recv }
unfolding handle_message admit
other_generation_dropped g s slot bytes h parsed lt latched other =
    rw (parsed, handle_message) (ground arith)

-- The newest-wins test, over the wrap-around of the 32-bit sequence number: a packet `d` numbers
-- after the stored one is stale exactly if `d` is 0 or at least half the range.
is_stale-ahead :
    (last d : ℕ)
    → last < 2 ^ 32
    → d < 2 ^ 32
    → is_stale ((last + d) % 2 ^ 32) last ≡ ((d == 0) || leb (2 ^ 31) d)
unfolding is_stale
is_stale-ahead last d l h = ap (λ x. is_at_most_zero (int32 x)) (ahead last d l h) ∙ as_signed d
  where
    ahead :
        (last d : ℕ)
        → last < 2 ^ 32
        → d < 2 ^ 32
        → ((last + d) % 2 ^ 32 + 2 ^ 32 - last) % 2 ^ 32 ≡ d
    ahead last d l h = omega arith

    as_signed : (d : ℕ) → is_at_most_zero (int32 d) ≡ ((d == 0) || leb (2 ^ 31) d)
    as_signed d = ground arith
