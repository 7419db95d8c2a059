-- ===== src/Session/Stream.antt =====
-- The end of a turn of NetThread in coop/net/session.cpp: the local pose goes out to every connection,
-- and the round-trip time is sampled. The clock is a parameter: whether a send or a sample is due.
pub mod Arrival
pub mod Rtt
pub mod Turn
use votv_mp.Base.{
  ℕ, Bool, true, false, not, ◌&&◌, ◌||◌, Option, none, some, List, [], ◌∷◌, ◌++◌, ltb, ◌==◌,
  if◌then◌else◌,
}
use votv_mp.Protocol.{PoseSnapshot, PropPoseSnapshot, WireKey, write_header, u32_bytes}
use votv_mp.Protocol.Kind
use votv_mp.Session.{Gns, Session, all_slots, is_connected, next32, send_message, send_unreliable}

-- localPose_ and localPropPose_ with their flags.
pub record Local : Type 0 where
  pub pose : Option PoseSnapshot
  pub prop_pose : Option PropPoseSnapshot

abbrev pub set_local_pose : Local → PoseSnapshot → Local
set_local_pose l p = record l { pose = some p }

abbrev pub set_local_prop_pose : Local → Bool → PropPoseSnapshot → Local
set_local_prop_pose l set p = record l { prop_pose = if set then some p else none }

-- The structs as they lie in memory.
unfoldable pub pose_bytes : PoseSnapshot → List ℕ
pose_bytes p =
    u32_bytes p.x
    ++ (u32_bytes p.y
        ++ (u32_bytes p.z
            ++ (u32_bytes p.yaw
                ++ (u32_bytes p.pitch
                    ++ (u32_bytes p.head_yaw_delta
                        ++ (u32_bytes p.speed
                            ++ (p.state_bits ∷ p.health_frac ∷ p.food_frac ∷ p.sleep_frac
                                ∷ [])))))))

unfoldable pub prop_pose_bytes : PropPoseSnapshot → List ℕ
prop_pose_bytes p =
    (p.key.len ∷ p.key.chars)
    ++ (u32_bytes p.x
        ++ (u32_bytes p.y
            ++ (u32_bytes p.z ++ (u32_bytes p.pitch ++ (u32_bytes p.yaw ++ u32_bytes p.roll)))))

unfoldable pub pose_packet : ℕ → ℕ → PoseSnapshot → List ℕ
pose_packet seq epoch p = write_header Kind.pose_snapshot_type seq epoch 0 ++ pose_bytes p

unfoldable pub prop_pose_packet : ℕ → ℕ → PropPoseSnapshot → List ℕ
prop_pose_packet seq epoch p = write_header Kind.prop_pose_type seq epoch 0 ++ prop_pose_bytes p

-- One datagram, under the next sequence number.
unfoldable pub post_unreliable : Gns → ℕ → (ℕ → List ℕ) → Session → Session
post_unreliable g conn packet s =
    send_message g (send_unreliable conn (packet s.send_seq))
      (record s { send_seq = next32 s.send_seq })

abbrev pub post_pose : Gns → ℕ → Option PoseSnapshot → Session → Session
post_pose g conn none s = s
post_pose g conn (some p) s = post_unreliable g conn (λ seq. pose_packet seq s.own_epoch p) s

abbrev pub post_prop_pose : Gns → ℕ → Option PropPoseSnapshot → Session → Session
post_prop_pose g conn none s = s
post_prop_pose g conn (some p) s =
    post_unreliable g conn (λ seq. prop_pose_packet seq s.own_epoch p) s

unfoldable pub stream_slots : Gns → Local → List ℕ → Session → Session
stream_slots g l [] s = s
stream_slots g l (i ∷ slots) s =
    let conn = s.peer_conns i in
    stream_slots g l slots
      (if conn == 0 then s else post_prop_pose g conn l.prop_pose (post_pose g conn l.pose s))

unfoldable pub stream : Gns → Local → Bool → Session → Session
stream g l due s = if is_connected s.state && due then stream_slots g l all_slots s else s

-- A ping that the library reports: none if the call fails or the value is out of range.
abbrev pub usable : Option ℕ → Option ℕ
usable none = none
usable (some ping) = if ltb ping 60000 then some ping else none

abbrev pub better : Option ℕ → Option ℕ → Option ℕ
better best none = best
better none (some ping) = some ping
better (some best) (some ping) = if ltb ping best then some ping else some best

-- GetConnectionRealTimeStatus by connection; a negative ping counts as a failed call.
unfoldable pub best_ping : (ℕ → Option ℕ) → Session → List ℕ → Option ℕ → Option ℕ
best_ping pings s [] best = best
best_ping pings s (i ∷ slots) best =
    best_ping pings s slots
      (if s.peer_conns i == 0 then best else better best (usable (pings (s.peer_conns i))))

abbrev pub store_ping : Session → Option ℕ → Session
store_ping s none = s
store_ping s (some ping) = record s { last_rtt_ms = ping }

unfoldable pub sample_rtt : (ℕ → Option ℕ) → Bool → Session → Session
sample_rtt pings due s =
    if is_connected s.state && due then store_ping s (best_ping pings s all_slots none) else s
