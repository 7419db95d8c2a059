-- ===== src/Feed/Served.antt =====
-- The loop over the inbox against a queue: every message is dispatched once, in order.
use votv_mp.Base.{
  ℕ, zero, suc, ◌+◌, ◌<◌, ◌≡◌, ap, ◌∙◌, none, some, List, [], ◌∷◌, ◌++◌, length, map, arith,
  length-append,
}
use votv_mp.Session.{Gns, Session, ReliableMessage, all_slots}
use votv_mp.Handshake.{Codec}
use votv_mp.Feed.{Feed, Fresh, with_session, dispatch, tend_slots, drain, update_feed}
use votv_mp.Feed.Emptied.{drain_ends, drain_reads, dispatch-Quiet, tend_slots-inbox}

-- The net thread queues these messages.
abbrev pub arrive : List ReliableMessage → Session → Session
arrive ms s = record s { inbox = s.inbox ++ ms }

abbrev pub with_inbox : Feed → List ReliableMessage → Feed
with_inbox f ms = with_session f (record f.game.session { inbox = ms })

abbrev pub total : List (List ReliableMessage) → ℕ
total [] = 0
total (b ∷ batches) = length b + total batches

-- The head of the queue is taken, if there is one.
abbrev pub take_head :
    Feed → List ReliableMessage → (ReliableMessage → List ReliableMessage → Feed) → Feed
take_head f [] go = with_inbox f []
take_head f (m ∷ ms) go = go m ms

module _ (c : Codec) (g : Gns) where
  -- The messages of a queue, dispatched in their order.
  unfoldable pub serve_queue : (ℕ → Fresh) → List ReliableMessage → Feed → Feed
  serve_queue new [] f = with_inbox f []
  serve_queue new (m ∷ ms) f =
      serve_queue (λ n. new (suc n)) ms (dispatch c g (new zero) (with_inbox f ms) m)

  -- The same, while a batch joins the end of the queue before each turn. It ends at the first turn
  -- that finds the queue empty.
  unfoldable pub serve :
      (ℕ → Fresh) → List (List ReliableMessage) → List ReliableMessage → Feed → Feed
  serve new [] queue f = serve_queue new queue f
  serve new (b ∷ batches) queue f =
      take_head f (queue ++ b)
        λ m ms. serve (λ n. new (suc n)) batches ms (dispatch c g (new zero) (with_inbox f ms) m)

  dispatched-inbox :
      (new : Fresh) (f : Feed) (m : ReliableMessage) (ms : List ReliableMessage)
      → (dispatch c g new (with_inbox f ms) m).game.session.inbox ≡ ms
  dispatched-inbox new f m ms = (dispatch-Quiet c g new (with_inbox f ms) m).inbox

  drain-serve_queue :
      (new : ℕ → Fresh) (fuel : ℕ) (queue : List ReliableMessage) (f : Feed)
      → f.game.session.inbox ≡ queue
      → length queue < fuel
      → drain c g new [] fuel f ≡ some (serve_queue new queue f)
  unfolding serve_queue
  drain-serve_queue new zero queue f e le = absurd (omega (arith, le))
  drain-serve_queue new (suc fuel) [] f e le =
      drain_ends c g new [] fuel f e ∙ ap (λ l. some (with_inbox f l)) e
  drain-serve_queue new (suc fuel) (m ∷ ms) f e le =
      drain_reads c g new [] fuel f m ms e
      ∙ drain-serve_queue (λ n. new (suc n)) fuel ms (dispatch c g (new zero) (with_inbox f ms) m)
          (dispatched-inbox (new zero) f m ms) (omega (arith, le))

  drain-serve :
      (new : ℕ → Fresh) (fuel : ℕ) (batches : List (List ReliableMessage))
      (queue : List ReliableMessage) (f : Feed)
      → f.game.session.inbox ≡ queue
      → length queue + total batches < fuel
      → drain c g new (map arrive batches) fuel f ≡ some (serve new batches queue f)
  unfolding serve
  drain-serve new fuel [] queue f e le = drain-serve_queue new fuel queue f e (omega (arith, le))
  drain-serve new zero (b ∷ batches) queue f e le = absurd (omega (arith, le))
  drain-serve new (suc fuel) (b ∷ batches) queue f e le =
      by_queue (queue ++ b) (ap (λ l. l ++ b) e) (omega (arith, le, length-append queue b))
        (λ ms t. drain-serve (λ n. new (suc n)) fuel batches ms t)
    where
      by_queue :
          (ms : List ReliableMessage)
          → f.game.session.inbox ++ b ≡ ms
          → length ms + total batches < suc fuel
          → ((ms : List ReliableMessage) (t : Feed)
              → t.game.session.inbox ≡ ms
              → length ms + total batches < fuel
              → drain c g (λ n. new (suc n)) (map arrive batches) fuel t
                ≡ some (serve (λ n. new (suc n)) batches ms t))
          → drain c g new (arrive b ∷ map arrive batches) (suc fuel) f
            ≡ some (
                take_head f ms λ m rest.
                  serve
                    (λ n. new (suc n))
                    batches
                    rest
                    (dispatch c g (new zero) (with_inbox f rest) m))
      by_queue [] at small again =
          drain_ends c g new (arrive b ∷ map arrive batches) fuel f at
          ∙ ap (λ l. some (with_inbox f l)) at
      by_queue (m ∷ ms) at small again =
          drain_reads c g new (arrive b ∷ map arrive batches) fuel f m ms at
          ∙ again ms (dispatch c g (new zero) (with_inbox f ms) m)
              (dispatched-inbox (new zero) f m ms) (omega (arith, small))

-- An Update of the feed, while the net thread queues a batch of messages before each of the first
-- reads: after the slots are tended, it dispatches the messages that were in the inbox and those that
-- arrive, each once, in the order of the queue, until a read finds the queue empty, and it does so
-- within one read more than there are messages.
pub update_feed-serve :
    (c : Codec) (g : Gns) (new : ℕ → Fresh) (batches : List (List ReliableMessage)) (fuel : ℕ)
    (f : Feed)
    → length f.game.session.inbox + total batches < fuel
    → update_feed c g new (map arrive batches) fuel f
      ≡ some (serve c g new batches f.game.session.inbox (tend_slots c g all_slots (f, none)).0)
unfolding update_feed
update_feed-serve c g new batches fuel f le =
    drain-serve c g new fuel batches f.game.session.inbox (tend_slots c g all_slots (f, none)).0
      (tend_slots-inbox c g all_slots (f, none)) le
