-- ===== src/TcpConnection/Endings.antt =====
-- Writes and closes from several threads, the loop's queue and the kernel's errors together: a
-- server's connection ends at most once.
use libpotato.Base.{
  ℕ, ◌+◌, ◌≤◌, ◌≡◌, refl, ap, ◌∙◌, subst, Bool, List, [], ◌∷◌, ◌++◌, ok, length, length-append,
  append-nil, arith,
}
use libpotato.EventLoop.{call_each}
use libpotato.IoWatcher.{Epoll}
use libpotato.IpAddress.{IpAddress}
use libpotato.Buffer.{max_size}
use libpotato.TcpConnection.{World, Callbacks, reset}
use libpotato.TcpConnection.Live.{Live, Owes, stream, facts}
use libpotato.TcpConnection.Calls.{
  Functor, bind_functor, close_functor, write_functor, Loop, body, run_functor, close_from,
}
use libpotato.TcpConnection.Outbox.{
  Happening, write_msg, come_to_queue, room, all_written, waiting, waiting-append,
}
use libpotato.TcpConnection.Handing.{happen}
use libpotato.TcpConnection.Fate.{
  Takes, Status, Reaches, write_functor-Reaches, close_functor-Reaches,
}

-- What happens, and besides, a thread closes the connection: its loop's or another.
pub data Event : Type 0 where
  happening : Happening → Event
  close_call : Bool → Event

-- The kernel takes no more than it is given.
abbrev pub HappeningTakes : Happening → Type 0
HappeningTakes (write_msg here f msg) = Takes f
HappeningTakes come_to_queue = Unit
HappeningTakes (room f) = Takes f

abbrev pub AllTake : List Event → Type 0
AllTake [] = Unit
AllTake (happening h ∷ es) = HappeningTakes h × AllTake es
AllTake (close_call here ∷ es) = AllTake es

abbrev pub size_of : Happening → ℕ
size_of h = length (all_written (h ∷ []))

-- The bytes of all messages.
abbrev pub sizes : List Event → ℕ
sizes [] = 0
sizes (happening h ∷ es) = size_of h + sizes es
sizes (close_call here ∷ es) = sizes es

abbrev pub FunctorTakes : Functor → Type 0
FunctorTakes bind_functor = ⊥
FunctorTakes close_functor = Unit
FunctorTakes (write_functor f msg) = Takes f

abbrev pub QueueTakes : List Functor → Type 0
QueueTakes [] = Unit
QueueTakes (f ∷ fs) = FunctorTakes f × QueueTakes fs

pub QueueTakes-append :
    (fs : List Functor) (f : Functor) → QueueTakes fs → FunctorTakes f → QueueTakes (fs ++ (f ∷ []))
QueueTakes-append [] f q t = (t, tt)
QueueTakes-append (g ∷ fs) f (u, q) t = (u, QueueTakes-append fs f q t)

module _ (k : Epoll) (et : Bool) (cb : Callbacks k) where
  abbrev pub happen_event : Event → Loop k et cb → Loop k et cb
  happen_event (happening h) l = happen k et cb h l
  happen_event (close_call here) l = close_from k et cb here l

  abbrev pub happen_events : List Event → Loop k et cb → Loop k et cb
  happen_events [] l = l
  happen_events (e ∷ es) l = happen_events es (happen_event e l)

module _ (k : Epoll) (et : Bool) (cb : Callbacks k)
    (quiet : (w : World k)
      → Live k et w
      → Owes k et (facts w) (length w.write_buffer.buf) (stream w) (cb.write_complete w))
    (destroys : (w : World k) → cb.destroy w ≡ reset k et cb w) (fd : ℕ) (peer : IpAddress)
    (closed : List ℕ) (b : Bool) where
  abbrev Now : ℕ → World k → Type 0
  Now n w = Status k et cb quiet destroys fd peer closed b n w

  -- A loop without a fault, whose connection is open or gone, and in whose queue no reply takes more
  -- than it is given.
  pub record IsFated (n : ℕ) (l : Loop k et cb) : Type 0 where
    pub connection : World k
    pub running : l.rest ≡ ok connection
    pub bytes : ℕ
    pub status : Now bytes connection
    pub queue : QueueTakes l.pending_functors
    pub total : bytes + length (waiting l.pending_functors) ≤ n

  pub run_functor-Reaches :
      (f : Functor) (m : ℕ) (w : World k)
      → FunctorTakes f
      → m + length (waiting (f ∷ [])) ≤ max_size
      → Now m w
      → Reaches k et cb quiet destroys fd peer closed b
          (m + length (waiting (f ∷ [])))
          (run_functor k et cb f w)
  run_functor-Reaches bind_functor m w t h s = absurd t
  run_functor-Reaches close_functor m w t h s =
      subst
        (λ n.
          Reaches k et cb quiet destroys fd peer closed b n (run_functor k et cb close_functor w))
        (omega arith) (close_functor-Reaches k et cb quiet destroys fd peer closed b m w s)
  run_functor-Reaches (write_functor f msg) m w t h s =
      let none_more = ap length (append-nil msg) in
      subst
        (λ n.
          Reaches k et cb quiet destroys fd peer closed b n
            (run_functor k et cb (write_functor f msg) w))
        (omega (arith, none_more))
        (write_functor-Reaches k et cb quiet destroys fd peer closed b f t msg m w
          (omega (arith, none_more)) s)

  pub call_each-Reaches :
      (fs : List Functor) (l : Loop k et cb) (m : ℕ) (w : World k)
      → QueueTakes fs
      → m + length (waiting fs) ≤ max_size
      → Now m w
      → (w' : World k) × (call_each (body k et cb) fs (record l { rest = ok w })
          ≡ record l { rest = ok w' })
        × Now (m + length (waiting fs)) w'
  unfolding call_each
  call_each-Reaches [] l m w q h s = (w, refl, subst (λ n. Now n w) (omega arith) s)
  call_each-Reaches (f ∷ fs) l m w (t, q) h s =
      let both : length (waiting (f ∷ fs)) ≡ length (waiting (f ∷ [])) + length (waiting fs) =
        ap length (waiting-append (f ∷ []) fs) ∙ length-append (waiting (f ∷ [])) (waiting fs) in
      let (w1, e1, s1) = run_functor-Reaches f m w t (omega (arith, both)) s in
      let (w2, e2, s2) =
        call_each-Reaches fs l (m + length (waiting (f ∷ []))) w1 q (omega (arith, both)) s1 in
      (
        w2,
        ap (λ r. call_each (body k et cb) fs (record l { rest = r })) e1 ∙ e2,
        subst (λ n. Now n w2) (omega (arith, both)) s2,
      )
