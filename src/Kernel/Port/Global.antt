-- ===== src/Kernel/Port/Global.antt =====
-- The global ports as a map from names to ports.
use dragon_ware.Base.{
  ℕ, zero, suc, ◌≤◌, ◌<◌, ◌≡◌, refl, sym, ◌≢◌, inl, inr, true, false, Bool-cases, List, [], ◌∷◌,
  some, arith, leb, ◌==◌, length,
}
use dragon_ware.Base.Store.{null, update, update_self, update_ne}
use dragon_ware.Status.{Status}
use dragon_ware.Kernel.State.{Kernel, Port, write_port}
use dragon_ware.Kernel.Port.{
  max_port_name, same_name, find_port, find_port_by_name, new_port, create_global_port, create_port,
  delete_port, drop_first, listed,
}

pub same_name_self : (n : ℕ) (a : List ℕ) → same_name n a a ≡ true
unfolding same_name
same_name_self zero a = refl
same_name_self (suc n) [] = refl
same_name_self (suc n) (c ∷ a) = ground (arith, same_name_self n a)

-- A port that is not listed does not matter to a search.
find_port-unlisted :
    (ports : ℕ → Port) (p : ℕ) (port : Port) (name list : List ℕ)
    → listed p list ≡ false
    → find_port (update ports p port) name list ≡ find_port ports name list
unfolding find_port
find_port-unlisted ports p port name [] h = refl
find_port-unlisted ports p port name (q ∷ rest) h =
    let other : p ≢ q = ground arith in
    ground (
      arith,
      find_port-unlisted ports p port name rest,
      update_ne ports p port q (λ e. other (sym e)),
    )

-- What creating the global port `name` at address `port` does.
pub data Created (k : Kernel) (name : List ℕ) (port node : ℕ) : (Status × ℕ) × Kernel → Type 0 where
  taken : find_port_by_name k name ≢ null → Created k name port node ((Status.unsupported, null), k)
  no_memory : port ≡ null → Created k name port node ((Status.out_of_memory, null), k)
  too_long : max_port_name ≤ length name → Created k name port node ((Status.bad_argument, null), k)
  no_node :
      (k' : Kernel)
      → node ≡ null
      → k'.freed ≡ port ∷ k.freed
      → ((other : List ℕ) → find_port_by_name k' other ≡ find_port_by_name k other)
      → Created k name port node ((Status.out_of_memory, null), k')
  made :
      (k' : Kernel)
      → find_port_by_name k name ≡ null
      → length name < max_port_name
      → find_port_by_name k' name ≡ port
      → ((other : List ℕ)
          → same_name max_port_name name other ≡ false
          → find_port_by_name k' other ≡ find_port_by_name k other)
      → Created k name port node ((Status.ok, port), k')

module _ (k : Kernel) (name : List ℕ) (owner port node : ℕ)
    (fresh : listed port k.port_list ≡ false) where
  abbrev written : Kernel
  written = write_port k port (new_port k port (some name) owner)

  abbrev listing : Kernel
  listing = record written { port_list = port ∷ k.port_list }

  found : find_port_by_name listing name ≡ port
  unfolding find_port_by_name find_port
  found =
      rw
        (
          update_self k.ports port (new_port k port (some name) owner),
          same_name_self max_port_name name,
        )
        refl

  unlisted : (other : List ℕ) → find_port_by_name written other ≡ find_port_by_name k other
  unfolding find_port_by_name
  unlisted other =
      find_port-unlisted k.ports port (new_port k port (some name) owner) other k.port_list fresh

  kept :
      (other : List ℕ)
      → same_name max_port_name name other ≡ false
      → find_port_by_name listing other ≡ find_port_by_name k other
  unfolding find_port_by_name find_port
  kept other h =
      rw (update_self k.ports port (new_port k port (some name) owner), h)
        (find_port-unlisted k.ports port (new_port k port (some name) owner) other k.port_list
          fresh)

  -- Creating a global port at memory that holds no listed port: a name in use, exhausted memory or a
  -- name of 48 characters or more are refused, and no search finds anything else than before; else a
  -- search for the name finds the new port, and searches for other names find what they found.
  pub create_port-Created : Created k name port node (create_port k (some name) owner port node)
  unfolding create_port create_global_port find_port_by_name
  create_port-Created = elim (Bool-cases (find_port_by_name k name == null)) [
    | inr e ↦ rw e (Created.taken (ground arith))
    | inl e ↦ rw e (elim (Bool-cases (port == null)) [
      | inl none_left ↦ rw none_left (Created.no_memory (ground arith))
      | inr some_left ↦ rw some_left (elim (Bool-cases (leb max_port_name (length name))) [
        | inl long ↦ rw long (Created.too_long (ground arith))
        | inr short ↦ rw short (elim (Bool-cases (node == null)) [
          | inl q ↦ rw q (Created.no_node _ (ground arith) refl unlisted)
          | inr node_left ↦ rw node_left (Created.made _ (ground arith) (ground arith) found kept)
        ])
      ])
    ])
  ]

-- A search for a name that the removed port does not have finds what it found.
find_port-drop_first :
    (ports : ℕ → Port) (p : ℕ) (name list : List ℕ)
    → same_name max_port_name (ports p).name name ≡ false
    → find_port ports name (drop_first p list) ≡ find_port ports name list
unfolding find_port
find_port-drop_first ports p name [] h = refl
find_port-drop_first ports p name (q ∷ rest) h = elim (Bool-cases (q == p)) [
  | inl e ↦ let same : q ≡ p = ground arith in rw (e, same, h) refl
  | inr e ↦ rw e (ground (arith, find_port-drop_first ports p name rest h))
]

-- Deleting a port leaves what searches for names it does not have find.
pub delete_port-find_port_by_name :
    (k : Kernel) (p : ℕ) (name : List ℕ)
    → same_name max_port_name (k.ports p).name name ≡ false
    → find_port_by_name (delete_port k p) name ≡ find_port_by_name k name
unfolding delete_port find_port_by_name
delete_port-find_port_by_name k p name h = elim (Bool-cases (listed p k.port_list)) [
  | inl e ↦ rw e (find_port-drop_first k.ports p name k.port_list h)
  | inr e ↦ rw e refl
]
