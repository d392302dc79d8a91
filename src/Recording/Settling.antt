-- ===== src/Recording/Settling.antt =====
-- Why handleDelivery of internal/queue/consumer.go acknowledges a delivery, in any environment.
use avatars.Prelude.{
  zero, suc, String, ◌≡◌, ◌↔◌, ◌⊎◌, inl, inr, Bool, true, false, ◌==◌, none, some, [], ◌∷◌, ℤ, pos,
  negsuc, arith, ok, err, Failure, add_one, Option-cases, Result-cases, Bool-cases, ap, Error,
  Result, ◌∙◌, if◌then◌else◌, refl,
}
use avatars.Queue.{AvatarProcessMessage, exchange_dlx, queue_retry_30s, queue_retry_2m, routing_dlq}
use avatars.Queue.Consumer.{Consumer, Delivery, handle_delivery, with_id}
use avatars.Queue.Retry.{bare, int, retry_count, resolve_retry_target, send_to_retry}
use avatars.Recording.{Act, Acts, acked, ran, marked, sent, looked_up, recorded_consumer}
use avatars.Recording.Deliveries.{acts_of, was_acked}

-- The id under which a delivery is processed: the one in its body, or else that of its envelope.
abbrev pub id_of : Delivery → AvatarProcessMessage → String
id_of d m = if m.message_id == "" then d.message_id else m.message_id

-- The message that the handler is given.
abbrev pub given : Delivery → AvatarProcessMessage → AvatarProcessMessage
given d m = record m { message_id = id_of d m }

-- Where the copy with this retry count goes, and what it is: the body again, and the count for the
-- two retry queues.
abbrev pub copy_of : Delivery → ℤ → Error → Act
copy_of d (pos (suc zero)) e =
    sent "" queue_retry_30s (bare d.body (some (("x-retry-count", int (pos 1)) ∷ []))) e
copy_of d (pos (suc (suc zero))) e =
    sent "" queue_retry_2m (bare d.body (some (("x-retry-count", int (pos 2)) ∷ []))) e
copy_of d (pos zero) e = sent exchange_dlx routing_dlq (bare d.body none) e
copy_of d (pos (suc (suc (suc _)))) e = sent exchange_dlx routing_dlq (bare d.body none) e
copy_of d (negsuc _) e = sent exchange_dlx routing_dlq (bare d.body none) e

apart {ℓ} : {P : Type ℓ} {b : Bool} → b ≡ true → b ≡ false → P
apart holds fails = absurd (cc)

module _ {W : Type 0} (c : Consumer W) (d : Delivery) where
  sent_copy :
      (n : ℤ) (w : W) (acts : Acts)
      → let r = send_to_retry c.ch d.body n w in
        send_to_retry (recorded_consumer c).ch d.body n (w, acts)
        ≡ (r.0, (r.1, copy_of d n r.0 ∷ acts))
  unfolding send_to_retry resolve_retry_target
  sent_copy (pos zero) w acts = refl
  sent_copy (pos (suc zero)) w acts = refl
  sent_copy (pos (suc (suc zero))) w acts = refl
  sent_copy (pos (suc (suc (suc n)))) w acts = refl
  sent_copy (negsuc n) w acts = refl

  was_acked-copy_of :
      (n : ℤ) (e : Error) (acts : Acts) → was_acked (copy_of d n e ∷ acts) ≡ was_acked acts
  unfolding was_acked
  was_acked-copy_of (pos zero) e acts = refl
  was_acked-copy_of (pos (suc zero)) e acts = refl
  was_acked-copy_of (pos (suc (suc zero))) e acts = refl
  was_acked-copy_of (pos (suc (suc (suc n)))) e acts = refl
  was_acked-copy_of (negsuc n) e acts = refl

  module _ (w : W) where
    -- The three ways to be done with a message.
    abbrev pub WasProcessed : AvatarProcessMessage → Type 0
    WasProcessed m = acts_of c d w ≡ acked ∷ looked_up (id_of d m) (ok true) ∷ []

    abbrev pub IsHandled : AvatarProcessMessage → Type 0
    IsHandled m =
        acts_of c d w
        ≡ acked
          ∷ marked (id_of d m) none
          ∷ ran (given d m) none
          ∷ looked_up (id_of d m) (ok false)
          ∷ []

    abbrev pub IsCopied : AvatarProcessMessage → Type 0
    IsCopied m =
        (e : Failure) × (acts_of c d w
          ≡ acked
            ∷ copy_of d (add_one (retry_count d.headers)) none
            ∷ ran (given d m) (some e)
            ∷ looked_up (id_of d m) (ok false)
            ∷ [])

    abbrev pub IsDone : Type 0
    IsDone =
        (m : AvatarProcessMessage) × (c.unmarshal d.body ≡ some m)
        × (WasProcessed m ⊎ IsHandled m ⊎ IsCopied m)

    done_acked : IsDone → was_acked (acts_of c d w) ≡ true
    unfolding was_acked
    done_acked (m, _, inl trace) = ap was_acked trace
    done_acked (m, _, inr (inl trace)) = ap was_acked trace
    done_acked (m, _, inr (inr (e, trace))) = ap was_acked trace

    with_id-given : (m : AvatarProcessMessage) → with_id d m ≡ given d m
    unfolding with_id
    with_id-given m = ground arith

    module _ (m : AvatarProcessMessage) (decodes : c.unmarshal d.body ≡ some m)
        (done : was_acked (acts_of c d w) ≡ true) where
      abbrev found : Result Bool × W
      found = c.store.is_message_processed (id_of d m) w

      abbrev answered : Error × W
      answered = c.handler (given d m) d found.1

      failed-IsCopied : (e : Failure) → found.0 ≡ ok false → answered.0 ≡ some e → IsCopied m
      unfolding handle_delivery was_acked
      failed-IsCopied e new fails =
          let n = add_one (retry_count d.headers) in
          let before = ran (given d m) (some e) ∷ looked_up (id_of d m) (ok false) ∷ [] in
          elim (Option-cases (send_to_retry c.ch d.body n answered.1).0) [
            | inl taken ↦ (
              e,
              rw (
                decodes,
                acts_of,
                handle_delivery,
                with_id-given m,
                new,
                fails,
                sent_copy n answered.1 before,
                taken,
              ),
            )
            | inr (f, refused) ↦ apart done (
                rw (
                  decodes,
                  acts_of,
                  handle_delivery,
                  with_id-given m,
                  new,
                  fails,
                  sent_copy n answered.1 before,
                  refused,
                  was_acked-copy_of n (some f) before,
                ))
          ]

      succeeded-IsHandled : found.0 ≡ ok false → answered.0 ≡ none → IsHandled m
      unfolding handle_delivery was_acked
      succeeded-IsHandled new well =
          elim (Option-cases (c.store.mark_message_processed (id_of d m) answered.1).0) [
            | inl written ↦
                rw (decodes, acts_of, handle_delivery, with_id-given m, new, well, written)
            | inr (f, refused) ↦
                apart done
                  (rw (decodes, acts_of, handle_delivery, with_id-given m, new, well, refused))
          ]

      known-WasProcessed : found.0 ≡ ok true → WasProcessed m
      unfolding handle_delivery was_acked
      known-WasProcessed known = ground (arith, with_id-given m)

      lookup_failed : (e : Failure) → found.0 ≡ err e → ⊥
      unfolding handle_delivery was_acked
      lookup_failed e lost = ground (arith, with_id-given m)

      reasons : WasProcessed m ⊎ IsHandled m ⊎ IsCopied m
      reasons = elim (Result-cases found.0) [
        | inr (e, lost) ↦ absurd (lookup_failed e lost)
        | inl (b, read) ↦ elim (Bool-cases b) [
          | inl known ↦ inl (known-WasProcessed (read ∙ ap ok known))
          | inr new ↦ elim (Option-cases answered.0) [
            | inl well ↦ inr (inl (succeeded-IsHandled (read ∙ ap ok new) well))
            | inr (e, fails) ↦ inr (inr (failed-IsCopied e (read ∙ ap ok new) fails))
          ]
        ]
      ]

    not_decoded : c.unmarshal d.body ≡ none → was_acked (acts_of c d w) ≡ false
    unfolding handle_delivery was_acked
    not_decoded lost = ground arith

    -- A delivery is acknowledged exactly when its body decodes to a message that the calls show to be
    -- done with: it was found under its id among the processed messages; or the handler was given it,
    -- with that id, and returned nil, and the id was written to the processed messages; or the handler
    -- returned an error, and the broker took a copy with the same body and the next retry count,
    -- addressed to the 30-second or 2-minute queue or to the dead letters by that count. No other
    -- calls are made. The id is that of the body, or of the envelope where that is empty.
    pub was_acked_lem : (was_acked (acts_of c d w) ≡ true) ↔ IsDone
    was_acked_lem = (
      λ done. elim (Option-cases (c.unmarshal d.body)) [
        | inl lost ↦ absurd (cc (not_decoded lost))
        | inr (m, decodes) ↦ (m, decodes, reasons m decodes done)
      ],
      done_acked,
    )
