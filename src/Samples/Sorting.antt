-- ===== src/Samples/Sorting.antt =====
-- Insertion sort, as a sort.Slice for the planner.
use controlitix.Common.{
  ℕ, suc, ◌≤◌, ◌≡◌, refl, inl, inr, ◌↔◌, if_elim, List, [], ◌∷◌, leb, leb→le, leb-false,
  if◌then◌else◌, length, In, arith,
}
use controlitix.Modbus.Batch.{ParsedTag}
use controlitix.Modbus.Batch.Plan.{SortedFrom}
use controlitix.Modbus.Batch.Coverage.{IsSortSlice}

-- sort.Slice by the offset: insertion sort.
unfoldable pub insert_tag : ParsedTag → List ParsedTag → List ParsedTag
insert_tag p [] = p ∷ []
insert_tag p (q ∷ qs) =
    let rest = insert_tag p qs in
    if leb p.address.offset q.address.offset then p ∷ q ∷ qs else q ∷ rest

unfoldable pub sort_tags : List ParsedTag → List ParsedTag
unfolding insert_tag
sort_tags [] = []
sort_tags (p ∷ ps) = insert_tag p (sort_tags ps)

insert_tag-SortedFrom :
    (n : ℕ) (p : ParsedTag) (qs : List ParsedTag)
    → n ≤ p.address.offset
    → SortedFrom n qs
    → SortedFrom n (insert_tag p qs)
unfolding insert_tag
insert_tag-SortedFrom n p [] h s = (h, tt)
insert_tag-SortedFrom n p (q ∷ qs) h s =
    if_elim (SortedFrom n) (leb p.address.offset q.address.offset) (λ e. (h, (leb→le _ _ e, s.1)))
      (λ e. (s.0, insert_tag-SortedFrom q.address.offset p qs (omega (arith, leb-false _ _ e)) s.1))

sort_tags-SortedFrom : (ps : List ParsedTag) → SortedFrom 0 (sort_tags ps)
unfolding sort_tags
sort_tags-SortedFrom [] = tt
sort_tags-SortedFrom (p ∷ ps) =
    insert_tag-SortedFrom 0 p (sort_tags ps) (omega arith) (sort_tags-SortedFrom ps)

insert_tag-In : (a p : ParsedTag) (qs : List ParsedTag) → In a (insert_tag p qs) ↔ In a (p ∷ qs)
unfolding insert_tag
insert_tag-In a p [] = (λ m. m, λ m. m)
insert_tag-In a p (q ∷ qs) =
    let (f, g) = insert_tag-In a p qs in
    if_elim (λ l. In a l ↔ In a (p ∷ q ∷ qs)) (leb p.address.offset q.address.offset)
      (λ e. (λ m. m, λ m. m))
      (λ e. (
        λ m. elim m [
          | inl i ↦ inr (inl i)
          | inr j ↦ elim (f j) [ inl i ↦ inl i | inr k ↦ inr (inr k) ]
        ],
        λ m. elim m [
          | inl i ↦ inr (g (inl i))
          | inr j ↦ elim j [ inl i ↦ inl i | inr k ↦ inr (g (inr k)) ]
        ],
      ))

sort_tags-In : (ps : List ParsedTag) (a : ParsedTag) → In a (sort_tags ps) ↔ In a ps
unfolding sort_tags
sort_tags-In [] a = (λ m. m, λ m. m)
sort_tags-In (p ∷ ps) a =
    let (f, g) = insert_tag-In a p (sort_tags ps) in
    let (h, k) = sort_tags-In ps a in
    (
      λ m. elim (f m) [ inl i ↦ inl i | inr j ↦ inr (h j) ],
      λ m. elim m [ inl i ↦ g (inl i) | inr j ↦ g (inr (k j)) ],
    )

length-insert_tag :
    (p : ParsedTag) (qs : List ParsedTag) → length (insert_tag p qs) ≡ suc (length qs)
unfolding insert_tag
length-insert_tag p [] = refl
length-insert_tag p (q ∷ qs) = ground (arith, length-insert_tag p qs)

length-sort_tags : (ps : List ParsedTag) → length (sort_tags ps) ≡ length ps
unfolding sort_tags
length-sort_tags [] = refl
length-sort_tags (p ∷ ps) = ground (arith, length-insert_tag p (sort_tags ps), length-sort_tags ps)

pub sort_tags-IsSortSlice : IsSortSlice sort_tags
sort_tags-IsSortSlice = record {
  sorted = sort_tags-SortedFrom;
  same_tags = sort_tags-In;
  same_length = length-sort_tags;
}
