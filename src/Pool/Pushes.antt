-- ===== src/Pool/Pushes.antt =====
-- The calls of the program in 4/thread_pool.c, against the owners of tasks.
use sysprog_exercises.Prelude.{
  ℕ, ◌≡◌, refl, sym, subst, ap, ◌∙◌, true, false, not, ◌&&◌, ◌||◌, ltb, Option, none, some, [], ◌∷◌,
  ◌++◌, arith, ◌==◌, inl, inr, Bool-cases, Option-cases, eq_of_some, occurrences,
  occurrences-append, occurrences-Absent, occurrences-Distinct,
}
use sysprog_exercises.Pool.Task.{
  Task, Memory, Code, success, too_many_tasks, pushed, put, with_status,
}
use sysprog_exercises.Pool.Queue.{put-Live, Queue, link, queue_push_back, queue_push_back-Holds}
use sysprog_exercises.Pool.Worker.{at_top, resting, pushing, pushed_one, Pool, broadcast}
use sysprog_exercises.Pool.Api.{max_tasks, push_check, push_append, push_spawn, delete_begin}
use sysprog_exercises.Pool.Keeps.{is_in_pool, Keeps-refl, Keeps-put, HasEnded}
use sysprog_exercises.Pool.Owners.{
  task_pushed, owners, task_of, ended_task, ended_of, occurrences-collect, tasks_of-broadcast,
  ended_of-broadcast, IsIn, IsIn-Stays, Holds-kept, Owned, Owned-moved, Owned-queue,
}

module _ {V : Type 0} where
  IsIn-put :
      (h : Memory V) (t a : ℕ) (x y : Task V)
      → h t ≡ some x
      → y.status ≡ x.status
      → IsIn h a
      → IsIn (put h t y) a
  IsIn-put h t a x y e same (z, f, i) = elim (Bool-cases (a == t)) [
    | inl here ↦
        let at : a ≡ t = ground (arith, here) in
        let one : z ≡ x = eq_of_some (sym f ∙ ap h at ∙ e) in
        (y, rw here refl, ap is_in_pool same ∙ ap (λ z. is_in_pool z.status) (sym one) ∙ i)
    | inr apart ↦ (z, rw apart f, i)
  ]

  abbrev AllIn : ℕ → Option (Memory V × Queue) → Type 0
  AllIn a none = Unit {0}
  AllIn a (some r) = IsIn r.0 a

  queue_push_back-AllIn :
      (h : Memory V) (q : Queue) (t a : ℕ) → IsIn h a → AllIn a (queue_push_back h q t)
  unfolding queue_push_back link
  queue_push_back-AllIn h q t a i = elim (Bool-cases (q.size == 0)) [
    | inl empty ↦ rw empty i
    | inr some_task ↦ elim (Option-cases (h q.tail)) [
      | inl e ↦ rw (some_task, e) tt
      | inr (x, e) ↦ rw (some_task, e) (IsIn-put h q.tail a x (record x { next = t }) e refl i)
    ]
  ]

  module _ (p : Pool V) (o : Owned p) where
    no_owner :
        (t : ℕ)
        → HasEnded p.memory t
        → (a : ℕ) → (a == t) ≡ true
        → owners a o.queue p.client p.threads ≡ 0
    no_owner t (x, e, out) a here =
        elim (Bool-cases (ltb 0 (owners a o.queue p.client p.threads))) [
          | inl owned ↦
              let i = o.in_pool a (ground (arith, owned)) in
              let at : a ≡ t = ground (arith, here) in
              let one : i.0 ≡ x = eq_of_some (sym i.1 ∙ ap p.memory at ∙ e) in
              let same : true ≡ false = sym i.2 ∙ ap (λ z. is_in_pool z.status) one ∙ out in
              absurd (cc)
          | inr free ↦ ground (arith, free)
        ]

    pub push_check-Owned :
        (t : ℕ)
        → p.client ≡ resting
        → HasEnded p.memory t
        → occurrences t (ended_of p.threads) ≡ 0
        → (r : Pool V × Code) × (push_check p t ≡ some r) × Owned r.0
    unfolding push_check
    push_check-Owned t rest (x, e, out) free =
        let y : Task V = with_status x pushed in
        let keeps = Keeps-put p.memory t x y e out in
        let before : (a : ℕ) → occurrences a (task_pushed p.client) ≡ 0 =
          λ a. ap (λ c. occurrences a (task_pushed c)) rest in
        elim (Bool-cases (p.tasks.size == max_tasks)) [
          | inl full ↦ ((p, too_many_tasks), rw full refl, o)
          | inr room ↦ (
            (record p { memory = put p.memory t y; client = pushing t }, success),
            rw (room, e) refl,
            record {
              queue = o.queue;
              holds =
                  Holds-kept p.memory (put p.memory t y) p.tasks o.queue
                    (λ a here. (o.in_pool a (omega arith), keeps a)) o.holds;
              once = λ a. elim (Bool-cases (a == t)) [
                | inl here ↦
                    let at : a ≡ t = ground (arith, here) in
                    ground (
                      arith,
                      no_owner t (x, e, out) a here,
                      before a,
                      ap (λ a. occurrences a (ended_of p.threads)) at,
                      free,
                    )
                | inr apart ↦ ground (arith, o.once a, before a)
              ];
              in_pool = λ a own. elim (Bool-cases (a == t)) [
                | inl here ↦ (y, rw here refl, refl)
                | inr apart ↦
                    IsIn-Stays p.memory (put p.memory t y) a (keeps a)
                      (o.in_pool a (ground (arith, own, before a)))
              ];
              ended_live = λ a own. put-Live p.memory t a y (o.ended_live a own);
            },
          )
        ]

    pub push_append-Owned :
        (t : ℕ) → p.client ≡ pushing t → (q : Pool V) × (push_append p t ≡ some q) × Owned q
    unfolding push_append
    push_append-Owned t e =
        let one : (a : ℕ) → occurrences a (task_pushed p.client) ≡ occurrences a (t ∷ []) =
          λ a. ap (λ c. occurrences a (task_pushed c)) e in
        let x = o.in_pool t (ground (arith, one t)) in
        let r =
          queue_push_back-Holds p.memory p.tasks o.queue t x.0 o.holds
            (occurrences-Distinct o.queue (λ a. omega (arith, o.once a)))
            (occurrences-Absent t o.queue (ground (arith, o.once t, one t))) x.1 in
        (
          record p {
            memory = r.0.0;
            tasks = r.0.1;
            threads = broadcast p.threads;
            client = pushed_one;
          },
          rw (r.1) refl,
          Owned-moved p _ o (o.queue ++ (t ∷ [])) r.2
              (λ a. omega (
                arith,
                one a,
                occurrences-append a o.queue (t ∷ []),
                ap (occurrences a) (tasks_of-broadcast p.threads),
              ))
              (λ a. omega (
                arith,
                one a,
                occurrences-append a o.queue (t ∷ []),
                ap (occurrences a) (tasks_of-broadcast p.threads),
                ap (occurrences a) (ended_of-broadcast p.threads),
              ))
              (λ a own i. subst (AllIn a) r.1 (queue_push_back-AllIn p.memory p.tasks t a i))
              (λ a own. r.3 a (
                o.ended_live a (omega (arith, ap (occurrences a) (ended_of-broadcast p.threads))))),
        )

    pub push_spawn-Owned : p.client ≡ pushed_one → Owned (push_spawn p)
    unfolding push_spawn
    push_spawn-Owned e =
        elim (Bool-cases
          (ltb p.threads_count p.tasks.size && ltb p.threads_count p.max_threads_count)) [
            | inl room ↦ rw room (
                Owned-queue p _ o refl
                  (λ a. omega (arith, occurrences-collect task_of a p.threads at_top []))
                  (λ a. omega (
                    arith,
                    occurrences-collect task_of a p.threads at_top [],
                    occurrences-collect ended_task a p.threads at_top [],
                  ))
                  (λ a own. Keeps-refl p.memory a)
                  (λ a own.
                    o.ended_live a
                      (omega (arith, occurrences-collect ended_task a p.threads at_top []))))
            | inr none_more ↦ rw none_more (
                Owned-queue p _ o refl (λ a. omega arith) (λ a. omega arith)
                  (λ a own. Keeps-refl p.memory a) o.ended_live)
          ]

    pub delete_begin-Owned : Owned (delete_begin p).0
    unfolding delete_begin
    delete_begin-Owned =
        elim (Bool-cases (not (p.tasks.size == 0) || not (p.running_tasks_count == 0))) [
          | inl busy ↦ rw busy o
          | inr idle ↦ rw idle (
              Owned-queue p _ o refl
                (λ a. omega (arith, ap (occurrences a) (tasks_of-broadcast p.threads)))
                (λ a. omega (
                  arith,
                  ap (occurrences a) (tasks_of-broadcast p.threads),
                  ap (occurrences a) (ended_of-broadcast p.threads),
                ))
                (λ a own. Keeps-refl p.memory a)
                (λ a own.
                  o.ended_live a
                    (omega (arith, ap (occurrences a) (ended_of-broadcast p.threads)))))
        ]
