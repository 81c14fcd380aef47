-- ===== src/Core/Session/Moves.antt =====
-- src/core/xps_session.c: the handlers of the sinks that fill the buffer for the client.
use nw_lab.Buffer.{Buffer, contents}
use nw_lab.Buffer.Lists.{BufferList}
use nw_lab.Buffer.Queued.{queued, IsQueue}
use nw_lab.Core.Pipe.{Pipe, End, Store}
use nw_lab.Core.Pipe.Transfer.{set_list}
use nw_lab.Core.Pipe.Flow.{bind_deref, sink_read-take, sink_clear-Cleared, Cleared}
use nw_lab.Core.Pipe.Links.{Linked, linked_end, put_at}
use nw_lab.Core.Session.{Session, World, available_at, take_all_from, move_to_client}
use nw_lab.Core.Session.Buffers.{set_to_client_buff-Linked}
use nw_lab.Memory.{Alloc, Sized, take_all}
use nw_lab.Prelude.{
  ℕ, ◌<◌, ◌≡◌, ◌≢◌, refl, sym, ap, ◌∙◌, inl, inr, Bool, true, false, Bytes, [], ◌∷◌, some, done,
  >>=-done, ◌==◌, length, drop, length-drop, arith, if◌then◌else◌,
}

pub available_at_lem :
    (s : Store) (p i : ℕ) (pipe : Pipe)
    → Linked s
    → s.pipe_at p ≡ some pipe
    → pipe.sink ≡ some i
    → available_at i s ≡ done pipe.buff_list.len
unfolding available_at
available_at_lem s p i pipe l at_p has =
    let (sink, at_i, back) =
      linked_end (λ x. x.pipe) (s.sink_at i) ((l.sinks p i).0 (rw at_p has)) in
    bind_deref (s.sink_at i) sink _ at_i
    ∙ bind_deref sink.pipe p _ back
    ∙ bind_deref (s.pipe_at p) pipe _ at_p

to_clear_lem :
    (fresh : Bool) (s : Store) (i n : ℕ)
    → available_at i s ≡ done n
    → (if fresh then available_at i s else done n) ≡ done n
to_clear_lem true s i n e = e
to_clear_lem false s i n e = refl

no_bytes : (n : ℕ) (xs : Bytes) → length xs ≡ n → drop n xs ≡ []
no_bytes n xs e = empty (drop n xs) (omega (arith, length-drop n xs))
  where
    empty : (ys : Bytes) → length ys ≡ 0 → ys ≡ []
    empty [] h = refl
    empty (y ∷ ys) h = absurd (omega arith)

clear_all_at :
    (s : Store) (p i : ℕ) (pipe : Pipe)
    → Linked s
    → s.pipe_at p ≡ some pipe
    → pipe.sink ≡ some i
    → IsQueue pipe.buff_list
    → 0 < pipe.buff_list.len
    → Cleared p i pipe.buff_list.len pipe s
clear_all_at s p i pipe l at_p has q pos =
    elim (sink_clear-Cleared s p i pipe.buff_list.len pipe l at_p has q pos) [
      | inl (le, done_well) ↦ done_well
      | inr (less, _) ↦ absurd (omega arith)
    ]

-- What the handlers leave of pipe `p` whose queue was not empty.
abbrev pub Moved : Alloc → (fresh : Bool) → (p i : ℕ) → Pipe → Session → World → Type 0
Moved a fresh p i pipe session w =
    (b : Buffer) × (w' : World) × (move_to_client a (λ n. true) fresh i session w
      ≡ done (record session { to_client_buff = some b }, w'))
    × (contents b ≡ queued pipe.buff_list.list)
    × Linked w'.store
    × ((l : BufferList) × (w'.store.pipe_at p ≡ some (record pipe { buff_list = l }))
        × IsQueue l
        × (queued l.list ≡ []))

-- A sink that the session fills its client's buffer from, where the allocations succeed and the
-- pipe holds some bytes: the buffer for the client holds all of them, in their order, the pipe is
-- empty, and all links stay mutual. It is the same whether the length is read again or not.
pub move_to_client-Moved :
    (a : Alloc) (fresh : Bool) (session : Session) (w : World) (p i : ℕ) (pipe : Pipe)
    (cs uk fk : End) (block : Bytes)
    → Linked w.store
    → w.store.source_at session.client_source ≡ some cs
    → w.store.sink_at session.upstream_sink ≡ some uk
    → w.store.sink_at session.file_sink ≡ some fk
    → session.file_sink ≢ session.upstream_sink
    → w.store.pipe_at p ≡ some pipe
    → pipe.sink ≡ some i
    → IsQueue pipe.buff_list
    → 0 < pipe.buff_list.len
    → Sized a
    → a.struct ≡ true
    → a.block pipe.buff_list.len ≡ some block
    → Moved a fresh p i pipe session w
unfolding move_to_client take_all_from
move_to_client-Moved a fresh session w p i pipe cs uk fk block l at_cs at_uk at_fk other at_p has q
      pos sized st e =
    elim (sink_read-take a w.store p i n pipe block l at_p has q pos sized st e) [
      | inr (less, _) ↦ absurd (omega arith)
      | inl (le, b, read, bytes, _) ↦
          let (s', set, l', same, _, _, _) =
            set_to_client_buff-Linked session w.store (some b) cs uk fk l at_cs at_uk at_fk other in
          let at_p' : s'.pipe_at p ≡ some pipe = ap (λ m. m p) same ∙ at_p in
          let again = to_clear_lem fresh s' i n (available_at_lem s' p i pipe l' at_p' has) in
          let (list, clear, queue, none_left, linked) =
            clear_all_at s' p i pipe l' at_p' has q pos in
          (
            b,
            record w { store = set_list p pipe list s' },
            >>=-done _ (available_at_lem w.store p i pipe l at_p has)
                ∙ rw some_bytes
                    (>>=-done _ read ∙ (>>=-done _ set ∙ (>>=-done _ again ∙ >>=-done _ clear))),
            bytes ∙ take_all n (queued pipe.buff_list.list) (omega (arith, q.counted)),
            linked,
            (list, put_at s'.pipe_at p _, queue, none_left ∙ no_bytes n _ (sym q.counted)),
          )
    ]
  where
    n : ℕ
    n = pipe.buff_list.len

    some_bytes : (n == 0) ≡ false
    some_bytes = ground arith
