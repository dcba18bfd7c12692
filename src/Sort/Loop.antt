-- ===== src/Sort/Loop.antt =====
-- 1/mine/libcoro.c: the loop of coroutines, a ring of nodes with a sentinel.
--
-- A node has an address; `malloc` is a parameter, the address that it gave out. `none` is the outcome of
-- following the address of a node that was never made or was freed. What a coroutine computes is its own
-- affair: here it is the number of times that it is still going to call `coro_yield`, by its address.
use sysprog_exercises.Prelude.{
  ◌>>=◌, ℕ, zero, suc, Bool, true, false, Option, none, some, List, [], ◌∷◌, if◌then◌else◌, ◌==◌,
}
use sysprog_exercises.Sort.Coroutines.{write_at}

-- `coro_list_node` of every address, and which addresses hold one.
pub record Nodes : Type 0 where
  pub next : ℕ → ℕ
  pub prev : ℕ → ℕ
  pub is_live : ℕ → Bool

-- `loop_t`, with its nodes
pub record Loop : Type 0 where
  pub nodes : Nodes
  pub sentinel : ℕ
  pub current_coro_node : ℕ

-- `a->next` and `a->prev`, read and written.
abbrev pub load : (ℕ → ℕ) → Nodes → ℕ → Option ℕ
load field m a = if m.is_live a then some (field a) else none

abbrev pub store_next : Nodes → ℕ → ℕ → Option Nodes
store_next m a v = if m.is_live a then some (record m { next = write_at m.next a v }) else none

abbrev pub store_prev : Nodes → ℕ → ℕ → Option Nodes
store_prev m a v = if m.is_live a then some (record m { prev = write_at m.prev a v }) else none

abbrev pub free_node : Nodes → ℕ → Nodes
free_node m a = record m { is_live = write_at m.is_live a false }

-- A node that `malloc` gave out, with its fields.
abbrev pub new_node : Nodes → ℕ → ℕ → ℕ → Nodes
new_node m a next prev = record {
  next = write_at m.next a next;
  prev = write_at m.prev a prev;
  is_live = write_at m.is_live a true;
}

-- `loop_init`; the current node is not set.
abbrev pub loop_init : Nodes → ℕ → ℕ → Loop
loop_init m sentinel unset = record {
  nodes = new_node m sentinel sentinel sentinel;
  sentinel = sentinel;
  current_coro_node = unset;
}

unfoldable pub coro_create : Loop → ℕ → Option Loop
coro_create l a = load l.nodes.prev l.nodes l.sentinel >>= (λ last.
    store_next (new_node l.nodes a l.sentinel last) last a
    >>= (λ m. store_prev m l.sentinel a >>= (λ m. some (record l { nodes = m }))))

-- The node behind the current one, past the sentinel.
unfoldable pub go_on : Loop → Option Loop
go_on l = load l.nodes.next l.nodes l.current_coro_node >>= (λ a.
    if a == l.sentinel
    then load l.nodes.next l.nodes a >>= (λ b. some (record l { current_coro_node = b }))
    else some (record l { current_coro_node = a }))

unfoldable pub coro_yield : Loop → Option Loop
unfolding go_on
coro_yield l = load l.nodes.next l.nodes l.sentinel >>= (λ first.
    load l.nodes.next l.nodes first
    >>= (λ second. if l.sentinel == second then some l else go_on l))

-- `old_node` leaves the ring, and is freed.
unfoldable pub unlink_node : Nodes → ℕ → Option Nodes
unlink_node m old = load m.prev m old >>= (λ before. load m.next m old >>= (λ behind.
    store_next m before behind >>= (λ m. load m.next m old >>= (λ behind.
      load m.prev m old
      >>= (λ before. store_prev m behind before >>= (λ m. some (free_node m old)))))))

-- The round of `loop_start` behind a coroutine that has returned.
unfoldable pub coro_returned : Loop → Option Loop
unfolding go_on unlink_node
coro_returned l = go_on l >>= (λ went.
    unlink_node went.nodes l.current_coro_node >>= (λ m. some (record went { nodes = m })))

-- `loop_start` from a coroutine that runs on, up to its next `coro_yield` or its end: the coroutines that
-- ran, in turn, and the nodes that are left. It runs on fuel, one for each turn.
unfoldable pub run_coros : ℕ → (ℕ → ℕ) → Loop → Option (List ℕ × Nodes)
unfolding coro_yield coro_returned
run_coros zero yields l = none
run_coros (suc k) yields l = elim (yields l.current_coro_node) [
  | zero ↦ coro_returned l >>= (λ l'. load l'.nodes.next l'.nodes l'.sentinel >>= (λ first.
      elim (first == l'.sentinel) [
        | true ↦ some (l.current_coro_node ∷ [], free_node l'.nodes l'.sentinel)
        | false ↦ run_coros k yields l' >>= (λ r. some (l.current_coro_node ∷ r.0, r.1))
      ]))
  | suc n ↦ coro_yield l >>= (λ l'.
      run_coros k (write_at yields l.current_coro_node n) l'
      >>= (λ r. some (l.current_coro_node ∷ r.0, r.1)))
]

unfoldable pub loop_start : ℕ → (ℕ → ℕ) → Loop → Option (List ℕ × Nodes)
unfolding run_coros
loop_start k yields l = load l.nodes.next l.nodes l.sentinel >>= (λ first.
    if first == l.sentinel
    then some ([], free_node l.nodes l.sentinel)
    else run_coros k yields (record l { current_coro_node = first }))
