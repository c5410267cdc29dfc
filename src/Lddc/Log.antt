-- ===== src/Lddc/Log.antt =====
-- The log of published messages: what a run of deliveries appends to it.
use auto_fastlio.Prelude.{
  ℕ, ◌≡◌, refl, sym, subst, ◌∙◌, Option, some, List, [], ◌∷◌, ◌++◌, append_assoc, List-cases, inl,
  inr, append-nil, ap,
}
use auto_fastlio.Comm.{PointXyzlt, StoragePacket}
use auto_fastlio.Numerics.{Numerics}
use auto_fastlio.Ldq.{blank}
use auto_fastlio.Ldq.Refine.{Entry, popped_packet}
use auto_fastlio.Lddc.Messages.{stamp_of}
use auto_fastlio.Lddc.Publish.{Lddc, Publisher, Message, output_to_ros}
use auto_fastlio.Lddc.Drain.{deliver_all, deliver_some-points}

module _ (N : Numerics) where
  -- An Lddc that publishes to ROS, in a format and with a frame id, on one topic for all lidars,
  -- through a publisher of that format that is there.
  pub record PublishesOn (p : Publisher) (frame_id : List ℕ) (format : ℕ) (lddc : Lddc N)
      : Type 0 where
    pub single : lddc.use_multi_topic ≡ 0
    pub ros : lddc.output_type ≡ output_to_ros
    pub made : lddc.global_pub ≡ some p
    pub kind : p.msg_type ≡ format
    pub chosen : lddc.transfer_format ≡ format
    pub frame : lddc.frame_id ≡ frame_id

  -- The Lddc after more messages.
  abbrev pub with_published : Lddc N → List (Publisher × Message N) → Lddc N
  with_published lddc more = record lddc { published = lddc.published ++ more }

  -- One message for each entry with points, in the order of the entries.
  unfoldable pub messages_of :
      Publisher → (Entry N.Float → Message N) → List (Entry N.Float) → List (Publisher × Message N)
  messages_of p msg_of [] = []
  messages_of p msg_of (e ∷ es) = elim e.points [
    | [] ↦ messages_of p msg_of es
    | _ ∷ _ ↦ (p, msg_of e) ∷ messages_of p msg_of es
  ]

  pub messages_of-points :
      (p : Publisher) (msg_of : Entry N.Float → Message N) (e : Entry N.Float)
      (es : List (Entry N.Float)) (x : PointXyzlt N.Float) (xs : List (PointXyzlt N.Float))
      → e.points ≡ x ∷ xs
      → messages_of p msg_of (e ∷ es) ≡ (p, msg_of e) ∷ messages_of p msg_of es
  unfolding messages_of
  messages_of-points p msg_of e es x xs split =
      subst
        (λ l.
          (elim l [
            | [] ↦ messages_of p msg_of es
            | _ ∷ _ ↦ (p, msg_of e) ∷ messages_of p msg_of es
          ])
          ≡ (p, msg_of e) ∷ messages_of p msg_of es)
        (sym split) refl

  pub stamp_of-some :
      (e : Entry N.Float) (x : PointXyzlt N.Float) (xs : List (PointXyzlt N.Float))
      → e.points ≡ x ∷ xs
      → stamp_of (popped_packet blank e) ≡ e.base_time
  unfolding stamp_of
  stamp_of-some e x xs split = rw split refl

  module _ (p : Publisher) (frame_id : List ℕ) (format : ℕ) where
    pub more-PublishesOn :
        (lddc : Lddc N) (more : List (Publisher × Message N))
        → PublishesOn p frame_id format lddc
        → PublishesOn p frame_id format (with_published lddc more)
    more-PublishesOn lddc more ready = record {
      single = ready.single;
      ros = ready.ros;
      made = ready.made;
      kind = ready.kind;
      chosen = ready.chosen;
      frame = ready.frame;
    }

    -- A body that publishes one message for an entry publishes one for each of a list.
    pub deliver_all-messages :
        (deliver : StoragePacket N.Float → Lddc N → Option (Lddc N))
        (msg_of : Entry N.Float → Message N)
        → ((lddc : Lddc N) (e : Entry N.Float) (x : PointXyzlt N.Float)
              (xs : List (PointXyzlt N.Float))
            → PublishesOn p frame_id format lddc
            → e.points ≡ x ∷ xs
            → deliver (popped_packet blank e) lddc
              ≡ some (with_published lddc ((p, msg_of e) ∷ [])))
        → (lddc : Lddc N) (es : List (Entry N.Float)) → PublishesOn p frame_id format lddc
        → deliver_all deliver es lddc ≡ some (with_published lddc (messages_of p msg_of es))
    unfolding deliver_all messages_of
    deliver_all-messages deliver msg_of one lddc [] ready = rw (append-nil lddc.published) refl
    deliver_all-messages deliver msg_of one lddc (e ∷ es) ready = elim (List-cases e.points) [
      | inl nothing ↦ rw nothing (deliver_all-messages deliver msg_of one lddc es ready)
      | inr (x, xs, split) ↦
          let m = (p, msg_of e) ∷ [] in
          let first =
            deliver_some-points deliver (popped_packet blank e) lddc x xs split
            ∙ one lddc e x xs ready split in
          let rest =
            deliver_all-messages deliver msg_of one (with_published lddc m) es
              (more-PublishesOn lddc m ready) in
          rw (first, messages_of-points p msg_of e es x xs split)
            (rest
              ∙ ap (λ l. some (record lddc { published = l }))
                  (append_assoc lddc.published m (messages_of p msg_of es)))
    ]
