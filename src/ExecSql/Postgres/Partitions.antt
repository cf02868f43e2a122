-- ===== src/ExecSql/Postgres/Partitions.antt =====
-- cli/api/dbadapters/postgres_execution_sql.ts: the partitions of a table, in the order of creation.
use sqlanvil.Base.{
  Text, some, Bool, true, false, List, [], ◌∷◌, ◌++◌, contains, contains-append, ==_refl, ◌≡◌,
  arith,
}
use sqlanvil.Targets.{Target, target_eq}
use sqlanvil.ExecSql.Types.{Partition, partition, Bounds, nil, cons, SubPartition, no_sub, sub}
use sqlanvil.ExecSql.Postgres.{
  Statement, create_partition, create_default, named, child_name, create_child_partitions,
  create_bounds, create_below, default_partition,
}

-- The partitioned table that a statement adds.
abbrev pub added : Statement → List Target
added (create_partition child parent values (some by)) = child ∷ []
added _ = []

abbrev pub known_after : List Target → List Statement → List Target
known_after known [] = known
known_after known (s ∷ ss) = known_after (added s ++ known) ss

abbrev pub HasParent : List Target → Statement → Type 0
HasParent known (create_partition child parent values by) = contains known parent ≡ true
HasParent known (create_default child parent) = contains known parent ≡ true
HasParent known _ = Unit

-- The parent of every partition is a partitioned table that is known, or that stands before it.
abbrev pub IsNested : List Target → List Statement → Type 0
IsNested known [] = Unit
IsNested known (s ∷ ss) = HasParent known s × IsNested (added s ++ known) ss

IsNested-append :
    (known : List Target) (xs ys : List Statement)
    → IsNested known xs
    → IsNested (known_after known xs) ys
    → IsNested known (xs ++ ys)
IsNested-append known [] ys hx hy = hy
IsNested-append known (x ∷ xs) ys hx hy = (hx.0, IsNested-append (added x ++ known) xs ys hx.1 hy)

contains-known_after :
    (known : List Target) (ss : List Statement) (t : Target)
    → contains known t ≡ true
    → contains (known_after known ss) t ≡ true
contains-known_after known [] t h = h
contains-known_after known (s ∷ ss) t h =
    contains-known_after (added s ++ known) ss t (ground (arith, contains-append (added s) known t))

IsNested-default :
    (known : List Target) (base : Target) (parent : Text) (d : Bool)
    → contains known (named base parent) ≡ true
    → IsNested known (default_partition base parent d)
unfolding default_partition
IsNested-default known base parent true h = (h, tt)
IsNested-default known base parent false h = tt

mutual
  unfolding create_child_partitions

  IsNested-bounds :
      (known : List Target) (base : Target) (parent : Text) (b : Bounds)
      → contains known (named base parent) ≡ true
      → IsNested known (create_bounds base parent b)
  IsNested-bounds known base parent nil h = tt
  IsNested-bounds known base parent (cons name values below rest) h =
      let first = create_below base parent (child_name parent name) values below in
      IsNested-append known first (create_bounds base parent rest)
        (IsNested-below known base parent (child_name parent name) values below h)
        (IsNested-bounds (known_after known first) base parent rest
          (contains-known_after known first (named base parent) h))

  IsNested-below :
      (known : List Target) (base : Target) (parent child values : Text) (s : SubPartition)
      → contains known (named base parent) ≡ true
      → IsNested known (create_below base parent child values s)
  IsNested-below known base parent child values no_sub h = (h, tt)
  IsNested-below known base parent child values (sub (partition kind [] bs d)) h = (h, tt)
  IsNested-below known base parent child values (sub (partition kind (c ∷ cs) bs d)) h =
      let below = named base child ∷ known in
      let found : contains below (named base child) ≡ true =
        ground (arith, ==_refl (named base child)) in
      (
        h,
        IsNested-append below (create_bounds base child bs) (default_partition base child d)
            (IsNested-bounds below base child bs found)
            (IsNested-default (known_after below (create_bounds base child bs)) base child d
              (contains-known_after below (create_bounds base child bs) (named base child) found)),
      )

-- The child partitions of a table come in an order in which each one's parent is the table itself or
-- a partitioned child that was created before it, at every depth.
pub create_child_partitions-IsNested :
    (t : Target) (p : Partition) → IsNested (t ∷ []) (create_child_partitions t t.name p)
unfolding create_child_partitions
create_child_partitions-IsNested t (partition kind columns bs d) =
    let found : contains (t ∷ []) (named t t.name) ≡ true = ground (arith, ==_refl t) in
    IsNested-append (t ∷ []) (create_bounds t t.name bs) (default_partition t t.name d)
      (IsNested-bounds (t ∷ []) t t.name bs found)
      (IsNested-default (known_after (t ∷ []) (create_bounds t t.name bs)) t t.name d
        (contains-known_after (t ∷ []) (create_bounds t t.name bs) t found))
