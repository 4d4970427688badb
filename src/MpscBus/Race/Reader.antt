-- ===== src/MpscBus/Race/Reader.antt =====
-- bus/mpsc_bus.hpp, `read_region`: a batch and the store of the read hand keep the invariant.
use deeplog.Base.{List, [], ap, inl, length, refl, suc, sym, zero, ℕ, ◌++◌, ◌<◌, ◌∙◌, ◌∷◌, ◌≡◌}
use mathlib.Core.List.{Perm, append_assoc}
use mathlib.Core.Path.{subst}
use deeplog.SharedMemory.{Memory}
use deeplog.MpscBus.{Info, clear, messages, consume_batch_size}
use deeplog.MpscBus.Queue.{RoundsUp, IsArea, next, Entry, granted, pending, ready, Chain}
use deeplog.MpscBus.Batch.{front, behind, reach, infos, messages-infos, clear-IsQueue}
use deeplog.MpscBus.Race.{System, with_block, publish_read}
use deeplog.MpscBus.Race.Hands.{Fresh, Fresh-trans, Fresh-next}
use deeplog.MpscBus.Race.Entries.{entry_at-before, readies, readies-front, entry_at-behind}
use deeplog.MpscBus.Race.Invariant.{Inv, Owners-keep}

module _ (round_up_p2 : ℕ → ℕ → ℕ) (law : RoundsUp round_up_p2) (e : ℕ) (area : IsArea e)
    (s : System) (xs : List Entry) (inv : Inv round_up_p2 e s xs) where
  reach-Fresh :
      (room : ℕ) (m : Memory) (p stop : ℕ) (ys : List Entry)
      → stop < e
      → Chain round_up_p2 e m p ys stop
      → Fresh p (reach round_up_p2 e room p ys) stop
  unfolding reach
  reach-Fresh zero m p stop ys h c = inl refl
  reach-Fresh (suc room) m p stop [] h c = inl refl
  reach-Fresh (suc room) m p stop (granted n ∷ ys) h c = inl refl
  reach-Fresh (suc room) m p stop (pending n ∷ ys) h c = inl refl
  reach-Fresh (suc room) m p stop (ready bytes ∷ ys) h c =
      let a = round_up_p2 (length bytes) 4 in
      Fresh-trans p (next e p a) (reach round_up_p2 e room (next e p a) ys) stop
        (Fresh-next e p a stop h c.1) (reach-Fresh room m (next e p a) stop ys h c.4)

  pub consume-Inv :
      (b : List Info × ℕ)
      → b ≡ (
        infos round_up_p2 e consume_batch_size s.read_pos xs,
        reach round_up_p2 e consume_batch_size s.read_pos xs,
      )
      → Inv round_up_p2 e
          (record (with_block s (clear s.region.block b.0)) {
            read_pos = b.1;
            delivered = s.delivered ++ messages s.region.block b.0;
          })
          (behind consume_batch_size xs)
  consume-Inv b taken =
      let q = inv.queue in
      let room = consume_batch_size in
      let m = s.region.block in
      let given =
        messages-infos round_up_p2 law e area room m s.read_pos s.region.alloc_ptr xs q.chain in
      rw taken (record {
        queue = clear-IsQueue round_up_p2 law e area room m s.read_pos s.region.alloc_ptr xs q;
        published_in = inv.published_in;
        published =
            Fresh-trans s.region.read_ptr s.read_pos (reach round_up_p2 e room s.read_pos xs)
              s.region.alloc_ptr inv.published
              (reach-Fresh room m s.read_pos s.region.alloc_ptr xs q.alloc_in q.chain);
        owners =
            Owners-keep round_up_p2 e s.read_pos (reach round_up_p2 e room s.read_pos xs) xs
              (behind room xs) s.producers
              (λ h x open_x found.
                entry_at-behind round_up_p2 e room s.read_pos xs h x open_x found)
              (λ h x open_x found.
                entry_at-before round_up_p2 e m room s.read_pos xs s.region.alloc_ptr h x
                  area.whole_blocks q.alloc_in q.chain found)
              inv.owners;
        conserved =
            subst (Perm s.committed)
              (ap (λ zs. s.delivered ++ zs) (readies-front room xs)
                ∙ sym (append_assoc s.delivered (front room xs) (readies (behind room xs)))
                ∙ ap (λ zs. (s.delivered ++ zs) ++ readies (behind room xs)) (sym given))
              inv.conserved;
      })

  pub publish-Inv : Inv round_up_p2 e (publish_read s) xs
  publish-Inv = record {
    queue = inv.queue;
    published_in = inv.queue.read_in;
    published = inl refl;
    owners = inv.owners;
    conserved = inv.conserved;
  }
