-- ===== src/Frontend/Listing/Feed.antt =====
-- What the live feed and the list show of the recorded traces: NewLivePage of
-- frontend/view/page.go and serveList of frontend/handler.go.
use mathlib.Core.List.{Perm}
use oida.Prelude.{
  ltb, if◌then◌else◌, lt→ltb, if-split, length, take, drop, keep, All, length-take, take_all, ℤ,
  pos, pos_part, ltb_ℤ, Text, bytes, text_eq, ℕ, zero, suc, ◌≤◌, fun_ext, ◌≡◌, refl, sym, ap, ◌∙◌,
  subst, ◌↔◌, ◌⊎◌, inl, inr, true, not, ◌&&◌, ◌||◌, List, [], ◌∷◌, ◌++◌, arith,
}
use oida.Model.Data.{Value, Trace}
use oida.Model.Options.{Numerals, Options}
use oida.Model.Statistics.Tallies.{trace_host}
use oida.Model.Statistics.Sorting.{sort_stable}
use oida.Model.Statistics.Stable.{
  IsOrdered, IsOrdered-weaken, IsOrdered-take, take-drop, sort_stable-perm, sort_stable-IsOrdered,
  keep_all,
}
use oida.Tracer.Snapshots.{Snapshot, IsNewer, newer, newer-IsNewer}
use oida.Frontend.Page.{Urls, view_list, PageRequest, limit_options, new_page, OneOf}
use oida.Frontend.Page.Choices.{new_page-IsUsable}
use oida.Frontend.Listing.{
  matches, passes, filter, sort_traces, feed_rows, new_live_page, list_page, host_page,
}
use oida.Frontend.Listing.Filtering.{Passes, passes_iff, filter-Passes}
use oida.Frontend.Listing.Sorting.{InOrder, sort_traces-InOrder}

-- The front of the traces in an order: at most `n`, in order, and in order with all the others,
-- which are there only if the front is full.
pub record IsFront (R : Trace → Trace → Type 0) (n : ℕ) (ts shown : List Trace) : Type 0 where
  pub others : List Trace
  pub all_there : Perm (shown ++ others) ts
  pub in_order : IsOrdered R shown
  pub ahead : All (λ t. All (R t) others) shown
  pub bounded : length shown ≤ n
  pub full : (others ≡ []) ⊎ (length shown ≡ n)

cut_full : (n : ℕ) (xs : List Trace) → (drop n xs ≡ []) ⊎ (length (take n xs) ≡ n)
cut_full zero xs = inr refl
cut_full (suc n) [] = inl refl
cut_full (suc n) (x ∷ xs) = elim (cut_full n xs) [ inl e ↦ inl e | inr e ↦ inr (ap suc e) ]

take-IsFront :
    (R : Trace → Trace → Type 0) (n : ℕ) (ts sorted : List Trace)
    → Perm sorted ts
    → IsOrdered R sorted
    → IsFront R n ts (take n sorted)
take-IsFront R n ts sorted p o =
    let (front, ahead) = IsOrdered-take R n sorted o in
    record {
      others = drop n sorted;
      all_there = rw (take-drop n sorted) p;
      in_order = front;
      ahead = ahead;
      bounded = ground (arith, length-take n sorted);
      full = cut_full n sorted;
    }

-- Cutting a list only when it is longer.
limited-IsFront :
    (R : Trace → Trace → Type 0) (n : ℕ) (ts sorted : List Trace)
    → Perm sorted ts
    → IsOrdered R sorted
    → IsFront R n ts (if ltb n (length sorted) then take n sorted else sorted)
limited-IsFront R n ts sorted p o =
    if-split (IsFront R n ts) (ltb n (length sorted)) (λ _. take-IsFront R n ts sorted p o)
      (λ k.
        subst (IsFront R n ts) (take_all n sorted (ground (arith, lt→ltb n (length sorted))))
          (take-IsFront R n ts sorted p o))

-- An offered limit is positive, so the test of serveList is on the length alone.
limit_cut :
    (limit : ℤ)
    → OneOf limit limit_options
    → (xs : List Trace)
    → (if ltb_ℤ (pos 0) limit && ltb_ℤ limit (pos (length xs))
        then take (pos_part limit) xs
        else xs)
      ≡ (if ltb (pos_part limit) (length xs) then take (pos_part limit) xs else xs)
limit_cut limit (inl e) xs = rw e (ground arith)
limit_cut limit (inr (inl e)) xs = rw e (ground arith)
limit_cut limit (inr (inr (inl e))) xs = rw e (ground arith)
limit_cut limit (inr (inr (inr (inl e)))) xs = rw e (ground arith)
limit_cut limit (inr (inr (inr (inr x)))) xs = absurd x

-- The traces of the chosen host, or all of them.
abbrev pub of_host : Text → List Trace → List Trace
of_host host ts = keep (λ t. text_eq host [] || text_eq (trace_host t) host) ts

module _ {n : Numerals} {S : Type 0} (u : Urls) (show : Value → Text) (opts : Options n S)
    (snapshot : Snapshot) (r : PageRequest) where
  host-passes :
      (host : Text) (t : Trace)
      → passes u.lower show (host_page host) t ≡ (text_eq host [] || text_eq (trace_host t) host)
  unfolding passes matches
  host-passes host t = ground arith

  hosted : Text → List Trace → List Trace
  unfolding filter text_eq
  hosted host ts = if not (text_eq host []) then filter u.lower show ts (host_page host) else ts

  hosted-of_host : (host : Text) (ts : List Trace) → hosted host ts ≡ of_host host ts
  unfolding hosted
  hosted-of_host host ts =
      if-split (λ r. r ≡ of_host host ts) (not (text_eq host []))
        (λ y.
          (filter-Passes u.lower show (host_page host) ts).0
          ∙ ap (λ f. keep f ts) (fun_ext (host-passes host)))
        (λ k. sym (keep_all (λ t. ground arith) ts))

  -- The live feed shows a front of the traces in flight and the recorded ones that are of the
  -- chosen host, if there is one: at most 25, newest first, none newer among those left out, and
  -- some are left out only when there are 25.
  pub live_page-IsFront :
      let page = new_live_page u show opts snapshot r in
      IsFront IsNewer feed_rows (of_host page.host (snapshot.live ++ snapshot.log)) page.feed
  unfolding new_live_page hosted
  live_page-IsFront =
      let host = u.trim (r.query (bytes "host")) in
      let merged = snapshot.live ++ snapshot.log in
      subst (λ ts. IsFront IsNewer feed_rows ts (new_live_page u show opts snapshot r).feed)
        (hosted-of_host host merged)
        (limited-IsFront IsNewer feed_rows (hosted host merged)
          (sort_stable newer (hosted host merged)) (sort_stable-perm newer (hosted host merged))
          (IsOrdered-weaken newer-IsNewer (sort_stable newer (hosted host merged)) (
            sort_stable-IsOrdered newer (λ a b h. ground arith) (λ a b c h k. ground arith)
              (hosted host merged))))

  -- The list page shows a front of the recorded traces that pass its filters: at most as many as
  -- its limit, in the order of the chosen column and in the chosen direction, ahead of all the
  -- others in that order, and others are left out only when the limit is reached; and a trace
  -- passes exactly when it meets what Passes asks of it: its texts hold the query, it has a span
  -- of the kind, it is of the host, and it failed if only failures are asked for.
  pub list_page-IsFront :
      let page = list_page u show opts snapshot r in
      IsFront
        (InOrder page.sort page.ascending)
        (pos_part page.limit)
        (keep (passes u.lower show page) snapshot.log)
        page.snapshot.log
      × ((t : Trace) → (passes u.lower show page t ≡ true) ↔ Passes u.lower show page t)
  unfolding list_page passes
  list_page-IsFront =
      let page = new_page u opts snapshot view_list r in
      let kept = (filter-Passes u.lower show page snapshot.log).0 in
      let sorted = sort_traces (filter u.lower show snapshot.log page) page.sort page.ascending in
      let (same, order, stable) =
        sort_traces-InOrder page.sort page.ascending (filter u.lower show snapshot.log page)
          (pos 0) in
      (
        subst
            (λ ts.
              IsFront (InOrder page.sort page.ascending) (pos_part page.limit) ts
                (list_page u show opts snapshot r).snapshot.log)
            kept
            (subst
              (IsFront (InOrder page.sort page.ascending) (pos_part page.limit)
                (filter u.lower show snapshot.log page))
              (sym (
                limit_cut page.limit (new_page-IsUsable u r opts snapshot view_list).limit_offered
                  sorted))
              (limited-IsFront (InOrder page.sort page.ascending) (pos_part page.limit)
                (filter u.lower show snapshot.log page) sorted same order)),
        passes_iff u.lower show (list_page u show opts snapshot r),
      )
