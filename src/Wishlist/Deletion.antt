-- ===== src/Wishlist/Deletion.antt =====
-- Who may delete what, and what a deletion leaves.
use psycho_space.Prelude.{
  ℕ, refl, sym, ◌∙◌, not, count_by-cong, ◌≡◌, ◌↔◌, Bool, true, false, ◌&&◌, ◌||◌, List, [], ◌∷◌,
  Option, none, some, ◌==◌, count_by, arith,
}
use psycho_space.Wishlist.Defs.{
  Sort, Tables, Item, item_views, ItemRow, is_live_item, first, change_where, soft_delete_item,
  item_author,
}
use psycho_space.Wishlist.Service.{list_items, delete_item}
use psycho_space.Wishlist.Order.{count_by-list_items}

-- Whether an actor may delete an item: it is there, and is the actor's own or the actor is an admin.
abbrev pub is_deletable : Option ItemRow → ℕ → Bool → Bool
is_deletable none actor is_admin = false
is_deletable (some r) actor is_admin = r.account_id == actor || is_admin

-- Deleting a row takes the ideas under its id out of what is shown, and nothing else.
views-soft_delete_item :
    (viewer item now : ℕ) (p : Item → Bool) (t : Tables) (rows : List ItemRow)
    → count_by p (
        item_views viewer
          (soft_delete_item item now t)
          (change_where (is_live_item item) (λ r. record r { deleted_at = some now }) rows))
      ≡ count_by (λ x. p x && not (x.id == item)) (item_views viewer t rows)
unfolding soft_delete_item item_views change_where count_by
views-soft_delete_item viewer item now p t [] = refl
views-soft_delete_item viewer item now p t (r ∷ rows) =
    ground (arith, views-soft_delete_item viewer item now p t rows)

delete_item_views :
    (item actor : ℕ) (is_admin : Bool) (now viewer : ℕ) (p : Item → Bool) (t : Tables)
    → let t' = (delete_item item actor is_admin now t).0 in
      let allowed = is_deletable (first (is_live_item item) t.items) actor is_admin in
      count_by p (item_views viewer t' t'.items)
      ≡ count_by (λ x. p x && not (allowed && x.id == item)) (item_views viewer t t.items)
unfolding delete_item item_author soft_delete_item
delete_item_views item actor is_admin now viewer p t = ground (
  arith,
  views-soft_delete_item viewer item now p t t.items,
  count_by-cong p (λ x. p x && not (false && x.id == item)) (item_views viewer t t.items)
      (λ x. ground arith),
)

-- A deletion succeeds exactly if the item is there and the actor wrote it or is an admin; a refused one
-- changes nothing. Afterwards every list holds what it held, as it stood, but for that item if the
-- deletion succeeded: any test passes as often as it did on the others. Comments and votes, those on
-- comments too, stay.
pub delete_item_lem :
    (item actor : ℕ) (is_admin : Bool) (now viewer : ℕ) (sort : Sort) (p : Item → Bool) (t : Tables)
    → let result = delete_item item actor is_admin now t in
      let allowed = is_deletable (first (is_live_item item) t.items) actor is_admin in
      ((result.1 ≡ none) ↔ (allowed ≡ true))
      × (allowed ≡ false → result.0 ≡ t)
      × (count_by p (list_items viewer sort result.0)
          ≡ count_by (λ x. p x && not (allowed && x.id == item)) (list_items viewer sort t))
      × (result.0.comments ≡ t.comments)
      × (result.0.votes ≡ t.votes)
      × (result.0.comment_votes ≡ t.comment_votes)
unfolding delete_item item_author soft_delete_item
delete_item_lem item actor is_admin now viewer sort p t =
    let allowed = is_deletable (first (is_live_item item) t.items) actor is_admin in
    (
      ground arith,
      λ h. ground (arith, h),
      count_by-list_items viewer sort p (delete_item item actor is_admin now t).0
          ∙ delete_item_views item actor is_admin now viewer p t
          ∙ sym (count_by-list_items viewer sort (λ x. p x && not (allowed && x.id == item)) t),
      ground arith,
      ground arith,
      ground arith,
    )
