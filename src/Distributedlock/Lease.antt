-- ===== src/Distributedlock/Lease.antt =====
-- What the kinds of lock that keep their state outside of the process have in common: a store with a
-- row for each resource, which says who holds it and until when. A kind says which rows there are and
-- when they are over; the locks of many processes over one store are sound in the same way.
use go_fw.Prelude.{
  ℕ, ◌≤◌, ◌≡◌, ◌≢◌, ◌⊎◌, inl, inr, refl, sym, subst, ◌∙◌, Bool-cases, Option, none, some, arith,
  update, update_self, update_other, Returns, ◌==◌, ==_iff,
}
use go_fw.Distributedlock.{BaseLock}

-- A row of a kind, its owner, and whether it is still in force at an instant; whether an expiration
-- is, and whether the row bears out that a lock holds the resource until then.
pub record LeaseKind : Type 1 where
  pub Row : Type 0
  pub owner : Row → ℕ
  pub Lives : ℕ → Row → Type 0
  pub Pending : ℕ → ℕ → Type 0
  pub Bears : Row → ℕ → ℕ → Type 0
  pub earlier : (now t e : ℕ) → now ≤ t → Pending t e → Pending now e
  pub bears_owner : (r : Row) (id e : ℕ) → Bears r id e → owner r ≡ id
  pub bears_lives : (r : Row) (id e now : ℕ) → Bears r id e → Pending now e → Lives now r

module _ (k : LeaseKind) where
  open k use {Row, owner, Lives, Pending, Bears, earlier, bears_owner, bears_lives}

  abbrev pub Store : Type 0
  Store = ℕ → Option Row

  -- The row bears out that the lock `id` is held until its expiration, unless that is over.
  abbrev pub IsBorneOut : ℕ → ℕ → Option ℕ → Option Row → Type 0
  IsBorneOut now id none row = Unit
  IsBorneOut now id (some e) row = Pending now e → Returns (λ r. Bears r id e) row

  -- What a call of the lock `l` leaves to it and to the others.
  pub record Kept (now : ℕ) (store : Store) (l : BaseLock) (r : Store × BaseLock) : Type 0 where
    pub same_id : r.1.id ≡ l.id
    pub same_resource : r.1.resource ≡ l.resource
    pub own :
        IsBorneOut now l.id l.expiration (store l.resource)
        → IsBorneOut now l.id r.1.expiration (r.0 l.resource)
    pub spares :
        (x : Row)
        → store l.resource ≡ some x
        → owner x ≢ l.id
        → Lives now x
        → r.0 l.resource ≡ some x
    pub others : (j : ℕ) → j ≢ l.resource → r.0 j ≡ store j

  -- A call that changes nothing in the store, and the lock only in what it may forget.
  pub idle-Kept :
      (now : ℕ) (store : Store) (l m : BaseLock)
      → m.id ≡ l.id
      → m.resource ≡ l.resource
      → (m.expiration ≡ none) ⊎ (m.expiration ≡ l.expiration)
      → Kept now store l (store, m)
  idle-Kept now store l m same_id same_resource kept = record {
    same_id = same_id;
    same_resource = same_resource;
    own = λ h. elim kept [ inl e ↦ rw e tt | inr e ↦ rw e h ];
    spares = λ x e d v. e;
    others = λ j d. refl;
  }

  -- A call that writes the row of its resource, where that was not another's in force.
  pub wrote-Kept :
      (now : ℕ) (store : Store) (l m : BaseLock) (row : Option Row)
      → m.id ≡ l.id
      → m.resource ≡ l.resource
      → IsBorneOut now l.id m.expiration row
      → ((y : Row) → store l.resource ≡ some y → owner y ≢ l.id → ¬ (Lives now y))
      → Kept now store l (update store l.resource row, m)
  wrote-Kept now store l m row same_id same_resource own free = record {
    same_id = same_id;
    same_resource = same_resource;
    own = λ h. rw (update_self store l.resource row) own;
    spares = λ y e d v. absurd (free y e d v);
    others = λ j d. update_other store l.resource j row d;
  }

  -- Every lock has its own id, and the store bears out what it takes its expiration to be.
  abbrev pub IsSound : ℕ → Store → (ℕ → BaseLock) → Type 0
  IsSound now store locks =
      (i : ℕ)
      → ((locks i).id ≡ i) × IsBorneOut now i (locks i).expiration (store (locks i).resource)

  later_lem :
      (now t id : ℕ) (o : Option ℕ) (row : Option Row)
      → now ≤ t
      → IsBorneOut now id o row
      → IsBorneOut t id o row
  later_lem now t id none row le h = tt
  later_lem now t id (some e) row le h = λ p. h (earlier now t e le p)

  pub later-IsSound :
      (now t : ℕ) (store : Store) (locks : ℕ → BaseLock)
      → now ≤ t
      → IsSound now store locks
      → IsSound t store locks
  later-IsSound now t store locks le s =
      λ i. ((s i).0, later_lem now t i (locks i).expiration _ le (s i).1)

  -- What another lock's call keeps of this lock's row.
  spared :
      (now id other : ℕ) (o : Option ℕ) (row row' : Option Row)
      → id ≢ other
      → ((x : Row) → row ≡ some x → owner x ≢ other → Lives now x → row' ≡ some x)
      → IsBorneOut now id o row
      → IsBorneOut now id o row'
  spared now id other none row row' d keep h = tt
  spared now id other (some e) none row' d keep h = λ p. absurd (h p)
  spared now id other (some e) (some x) row' d keep h = λ p.
      let b = h p in
      rw (keep x refl (λ q. d (sym (bears_owner x id e b) ∙ q)) (bears_lives x id e now b p)) b

  -- The call of another lock leaves this one borne out, on the same resource or another.
  bystander :
      (now : ℕ) (store : Store) (l m : BaseLock) (r : Store × BaseLock)
      → m.id ≢ l.id
      → Kept now store l r
      → IsBorneOut now m.id m.expiration (store m.resource)
      → IsBorneOut now m.id m.expiration (r.0 m.resource)
  bystander now store l m r d kept h = elim (Bool-cases (m.resource == l.resource)) [
    | inl e ↦
        let same : m.resource ≡ l.resource = (==_iff m.resource l.resource).0 e in
        subst (λ n. IsBorneOut now m.id m.expiration (r.0 n)) (sym same)
          (spared now m.id l.id m.expiration (store l.resource) (r.0 l.resource) d kept.spares
            (subst (λ n. IsBorneOut now m.id m.expiration (store n)) same h))
    | inr e ↦
        subst (IsBorneOut now m.id m.expiration) (sym (kept.others m.resource (λ q. ground arith)))
          h
  ]

  -- A call of one of the locks, which keeps what it must, leaves all of them sound.
  pub put-IsSound :
      (now : ℕ) (store : Store) (locks : ℕ → BaseLock) (i : ℕ) (r : Store × BaseLock)
      → IsSound now store locks
      → Kept now store (locks i) r
      → IsSound now r.0 (update locks i r.1)
  put-IsSound now store locks i (store', l) s kept j = elim (Bool-cases (j == i)) [
    | inl e ↦
        let same : j ≡ i = (==_iff j i).0 e in
        let own =
          subst
            (λ n.
              IsBorneOut now n (locks i).expiration (store (locks i).resource)
              → IsBorneOut now n l.expiration (store' (locks i).resource))
            (s i).0 kept.own in
        rw (e, same) (kept.same_id ∙ (s i).0, rw kept.same_resource (own (s i).1))
    | inr e ↦
        let apart : j ≢ i = λ q. ground arith in
        rw e (
          (s j).0,
          subst (λ n. IsBorneOut now n (locks j).expiration (store' (locks j).resource)) (s j).0
              (bystander now store (locks i) (locks j) (store', l)
                (λ q. apart (sym (s j).0 ∙ q ∙ (s i).0)) kept
                (subst (λ n. IsBorneOut now n (locks j).expiration (store (locks j).resource))
                  (sym (s j).0) (s j).1)),
        )
  ]

  -- The lock takes itself to be held: its expiration is set and not over.
  abbrev pub IsHeld : ℕ → BaseLock → Type 0
  IsHeld now l = Returns (Pending now) l.expiration

  held_row :
      (now id : ℕ) (o : Option ℕ) (row : Option Row)
      → IsBorneOut now id o row
      → Returns (Pending now) o
      → Returns (λ r. owner r ≡ id) row
  held_row now id none row b h = absurd h
  held_row now id (some e) none b h = b h
  held_row now id (some e) (some r) b h = bears_owner r id e (b h)

  one_owner :
      (i j : ℕ) (row : Option Row)
      → Returns (λ r. owner r ≡ i) row
      → Returns (λ r. owner r ≡ j) row
      → i ≡ j
  one_owner i j none a b = absurd a
  one_owner i j (some r) a b = sym a ∙ b

  -- Of sound locks, no two hold one resource.
  pub IsSound-exclusive :
      (now : ℕ) (store : Store) (locks : ℕ → BaseLock) (i j : ℕ)
      → IsSound now store locks
      → (locks i).resource ≡ (locks j).resource
      → IsHeld now (locks i)
      → IsHeld now (locks j)
      → i ≡ j
  IsSound-exclusive now store locks i j s same hi hj =
      one_owner i j (store (locks j).resource)
        (held_row now i (locks i).expiration _
          (subst (λ n. IsBorneOut now i (locks i).expiration (store n)) same (s i).1) hi)
        (held_row now j (locks j).expiration _ (s j).1 hj)

  -- New locks, none held, each with its own id, are sound over any store.
  pub start-IsSound :
      (now : ℕ) (store : Store) (locks : ℕ → BaseLock)
      → ((i : ℕ) → ((locks i).id ≡ i) × ((locks i).expiration ≡ none))
      → IsSound now store locks
  start-IsSound now store locks start = λ i. ((start i).0, rw ((start i).1) tt)
