-- ===== src/Memory/Controller/Invariant/Exclusive.antt =====
-- Exclusive requests, and the first sharer of a block.
use model_lib.Prelude.{Option, arith, some, ℕ, ◌≡◌, ◌≤◌}
use model_lib.Memory.Run.{Run, Ensures, by_value, Ensures-bind, Ensures-check, Ensures-require}
use model_lib.Memory.RequestQueues.{size}
use model_lib.Memory.Directory.Entry.{DirectoryEntry, set_owner, sharers_list, count}
use model_lib.Memory.Directory.Store.{
  DirectoryState, uncached, shared, owned, modified, exclusive, Line, add_sharer,
}
use model_lib.Memory.Directory.Cache.{Pointer, load_line}
use model_lib.Memory.Controller.State.{
  MsgType, Protocol, msi, mesi, mesif, DataBuf, ShmemReq, Config, Controller, is_null,
}
use model_lib.Memory.Controller.Allocate.{invalidations, entry_for}
use model_lib.Memory.Controller.Requests.{first_reader, first_sharer_reply, ex_by_state, process_ex}
use model_lib.Memory.Controller.Coherent.{Sole, CoherentAs}
use model_lib.Memory.Controller.Coherent.Added.{Added, add_sharer-Added, first_sharer-Sole}
use model_lib.Memory.Controller.Invariant.Serving.{
  read-Coherent, write-AllCoherent, AllCoherent, Serves, send_all-AllCoherent, retrieve-AllCoherent,
}
use model_lib.Memory.Controller.Invariant.Allocation.{Ready, entry_for-Ready}

-- A state in which a block with a sole sharer is coherent.
abbrev pub Holds : DirectoryState → Type 0
Holds t = (e : DirectoryEntry) (id : ℕ) → Sole e id → CoherentAs t e

pub modified-Holds : Holds modified
modified-Holds e id s = (id, s)

pub first_reader-Holds : (p : Protocol) → Holds (first_reader p).0
first_reader-Holds msi e id s = omega (arith, s.2)
first_reader-Holds mesi e id s = (id, s)
first_reader-Holds mesif e id s = (id, s)

module _ {N : Type 0} (cfg : Config N) {n : ℕ} {next : ℕ → Controller N → Run (Controller N)}
    (serves : Serves n next) (some_fuel : 1 ≤ n) where
  pub first_sharer_reply-AllCoherent :
      (t : DirectoryState × MsgType) (c : Controller N) (p : Pointer) (l : Line) (requester a : ℕ)
      (b : Option DataBuf)
      → Holds t.0
      → AllCoherent c
      → count l.entry.sharers ≡ 0
      → size c.requests a ≤ n
      → Ensures AllCoherent (first_sharer_reply cfg next t c p l requester a b)
  first_sharer_reply-AllCoherent t c p l requester a b holds h z s =
      Ensures-check _ (add_sharer cfg.geometry.scheme l requester) _ λ r er.
        Ensures-require _ r.0 _ λ took.
          Ensures-check _ (set_owner r.1.entry (some requester)) _ λ e ee.
            let added : Added l requester r = add_sharer-Added cfg.geometry.scheme l requester er in
            retrieve-AllCoherent cfg serves some_fuel _ t.1 requester a b
              (write-AllCoherent c p _ h
                (holds e requester (first_sharer-Sole l requester added z took ee)))
              s

  ex_by_state-AllCoherent :
      (t : DirectoryState) (c : Controller N) (p : Pointer) (l : Line) (requester a : ℕ)
      (b : Option DataBuf)
      → AllCoherent c
      → CoherentAs t l.entry
      → size c.requests a ≤ n
      → Ensures AllCoherent (ex_by_state cfg next t c p l requester a b)
  ex_by_state-AllCoherent exclusive c p l requester a b h k s =
      Ensures-require _ (is_null b) _ λ u. by_value h
  ex_by_state-AllCoherent modified c p l requester a b h k s =
      Ensures-require _ (is_null b) _ λ u. by_value h
  ex_by_state-AllCoherent shared c p l requester a b h k s =
      Ensures-require _ (is_null b) _
        λ u. by_value (send_all-AllCoherent c (invalidations requester a (sharers_list l.entry)) h)
  ex_by_state-AllCoherent uncached c p l requester a b h k s =
      first_sharer_reply-AllCoherent _ c p l requester a b modified-Holds h k s
  ex_by_state-AllCoherent owned c p l requester a b h k s = absurd k

  pub process_ex-AllCoherent :
      (c : Controller N) (r : ShmemReq) (b : Option DataBuf)
      → AllCoherent c
      → size c.requests r.msg.address ≤ n
      → Ensures AllCoherent (process_ex cfg next c r b)
  unfolding process_ex
  process_ex-AllCoherent c r b h s =
      Ensures-bind _ (Ready cfg serves r.msg.address) (entry_for cfg next c r) _
        (entry_for-Ready cfg serves c r h some_fuel s)
        λ e k. Ensures-check _ (load_line e.1.cache e.0) _ λ l el.
          ex_by_state-AllCoherent l.dstate e.1 e.0 l r.msg.requester r.msg.address b k.0
            (read-Coherent e.1 e.0 k.0 el) k.1
