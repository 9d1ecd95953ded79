-- ===== src/Tests/Com.antt =====
-- Examples for src/wrapper.rs, src/smart_ptr.rs and src/macros/impl_interface.rs.
use kcom_rs.Prelude.{ℕ, suc, ◌≡◌, refl, arith, false, Option, none, some, List, [], ◌∷◌}
use kcom_rs.Status.{status_success, status_nointerface}
use kcom_rs.RefCount.{leaky}
use kcom_rs.RefCount.Laws.{counter}
use kcom_rs.Com.{
  Guid, Pointer, null, primary, non_delegating, secondary, World, Others, Acts, quiet, adds,
  releases, same, try_new_aggregated_in,
}
use kcom_rs.Com.Run.{returned}
use kcom_rs.Com.Methods.{query_interface, release}
use kcom_rs.Com.Interfaces.{query_primary, query_iunknown, query_single}
use kcom_rs.Com.States.{object_at, world_at, new_lem}
use kcom_rs.Com.Clients.{Call, adding, releasing, performs}
use kcom_rs.Com.Lifetime.{lifetime_lem}
use kcom_rs.Com.Identity.{query-secondary}
use kcom_rs.Com.Query.{query_lem}
use kcom_rs.Com.Consistency.{result_of, query-query}
use kcom_rs.Com.Aggregation.{aggregated_lem}
use kcom_rs.Com.Rc.{ComRc, from_raw}
use kcom_rs.Com.Rc.Handles.{cloning, dropping}
use kcom_rs.Com.Rc.Uses.{uses}
use kcom_rs.Com.Rc.Balance.{comrc_lem}

abbrev five : ℕ
five = 5

abbrev iid_foo : Guid
iid_foo = record { data1 = 0xAA55; data2 = 1; data3 = 2; data4 = 7 ∷ [] }

abbrev iid_bar : Guid
iid_bar = record { data1 = 0xBB66; data2 = 1; data3 = 2; data4 = 8 ∷ [] }

-- The other objects are counts of the calls made on them.
abbrev counting : Others ℕ
counting = record {
  add_ref = λ k o. (suc o, suc o);
  release = λ k o. (o, suc o);
  query_interface = λ k riid ppv_is_null o. ((status_nointerface, some null), suc o);
}

abbrev own : ℕ → Pointer → Guid → Option Pointer
own = query_primary iid_foo (iid_bar ∷ []) query_iunknown

-- A reference is added through the secondary interface, and both are given back.
abbrev three_calls : List Call
three_calls = adding (secondary 0) ∷ releasing primary ∷ releasing (secondary 0) ∷ []

lifetime_lem_example :
    performs (counter leaky) counting quiet own three_calls (world_at 1 none five 1 0)
    ≡ returned tt (world_at 1 none five 0 0)
lifetime_lem_example =
    lifetime_lem iid_foo (iid_bar ∷ []) (counter leaky) counting three_calls five 0 primary
      (object_at 1 none five 1) (new_lem 1 five)
      (omega arith, omega arith, (tt, omega arith, (omega arith, omega arith, tt)))

-- One secondary interface, two references.
abbrev made : World ℕ ℕ
made = record {
  object = record (object_at 1 none five 1) { ref_count = 2; outer_unknown = none };
  others = 0;
}

query-secondary_example :
    query_interface (counter leaky) counting quiet own (secondary 0) (some iid_bar) false made
    ≡ query_interface (counter leaky) counting quiet own primary (some iid_bar) false made
query-secondary_example =
    query-secondary (counter leaky) counting quiet own 1 0 1 none five 0 (some iid_bar) false
      primary (object_at 1 none five 1) (new_lem 1 five) (omega arith)

finds_bar :
    query_interface
      (counter leaky)
      counting
      quiet
      own
      primary
      (some iid_bar)
      false
      (world_at 1 none five 1 0)
    ≡ returned (status_success, some (secondary 0)) (world_at 1 none five 2 0)
unfolding same
finds_bar =
    query_lem (counter leaky) counting quiet iid_foo (iid_bar ∷ []) five 0 primary iid_bar 0 tt
      (omega arith)

query-query_example :
    result_of (
      query_interface
        (counter leaky)
        counting
        quiet
        own
        (secondary 0)
        (some iid_foo)
        false
        (world_at 1 none five 2 0))
    ≡ result_of (
        query_interface
          (counter leaky)
          counting
          quiet
          own
          primary
          (some iid_foo)
          false
          (world_at 1 none five 1 0))
query-query_example =
    query-query iid_foo (iid_bar ∷ []) (counter leaky) counting quiet five 0 primary (secondary 0)
      iid_bar iid_foo 0 (world_at 1 none five 2 0) tt (omega arith) finds_bar

-- The outer object counts a reference to the interface, and its own is given back.
abbrev two_calls : List Call
two_calls = adding primary ∷ releasing non_delegating ∷ []

aggregated_lem_example :
    (◌≡◌ {A = Pointer} non_delegating non_delegating)
    × (performs
          (counter leaky)
          counting
          quiet
          (query_single iid_foo query_iunknown)
          two_calls
          (world_at 0 (some (some 3)) five 1 0)
        ≡ returned tt (world_at 0 (some (some 3)) five 0 1))
unfolding try_new_aggregated_in
aggregated_lem_example =
    aggregated_lem iid_foo counting 3 (counter leaky) five two_calls 0 non_delegating
      (object_at 0 (some (some 3)) five 1) refl (tt, omega arith, (tt, omega arith, tt))

-- The destructor lends the object to a call that adds a reference and gives it back; destroyed again,
-- it does nothing.
abbrev lends : Acts
lends = adds (releases quiet quiet)

abbrev first : ComRc
first = record { ptr = primary }

comrc_lem_example :
    uses iid_foo
      (iid_bar ∷ [])
      (counter leaky)
      counting
      (cloning 0 ∷ dropping 1 ∷ dropping 0 ∷ [])
      (first ∷ [])
      (world_at 1 none five 1 0)
    ≡ returned [] (world_at 1 none five 0 0)
unfolding from_raw
comrc_lem_example =
    comrc_lem iid_foo (iid_bar ∷ []) (counter leaky) counting five 0
      (cloning 0 ∷ dropping 1 ∷ dropping 0 ∷ []) primary (object_at 1 none five 1) first
      (new_lem 1 five) refl (omega arith, (omega arith, (omega arith, tt)))
