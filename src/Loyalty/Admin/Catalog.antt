-- ===== src/Loyalty/Admin/Catalog.antt =====
-- apps/loyalty-service/src/admin/admin-config.service.ts: the paged lists of achievements and badges,
-- and `getCatalog`, over the rows in the order that its queries ask for. `ilike value pattern` is
-- PostgreSQL's comparison.
use bumpa_achievement_system.Common.{
  ◌≡◌, refl, ap, ◌∙◌, String, Bool, true, false, ◌&&◌, ◌||◌, Option, none, some, List, [], ◌∷◌, map,
  has, filter, if◌then◌else◌, ◌==◌, arith, Bool-cases, inl, inr, eq_iff, ◌⊎◌, All,
}
use bumpa_achievement_system.Paging.{
  PagedTable, PageQuery, Paginated, list_page, if_given, if_defined, bool_eq, search_pattern,
}
use bumpa_achievement_system.Loyalty.Unlock.{AchievementConfig}
use bumpa_achievement_system.Loyalty.Badges.{BadgeConfig}
use bumpa_achievement_system.Loyalty.Admin.{AchievementGroup}

-- admin/dto/list-config-query.dto.ts; a list of badges ignores the group.
pub record ListConfigQuery : Type 0 where
  pub pages : PageQuery
  pub search : Option String
  pub active : Option Bool
  pub group_key : Option String

module _ (ilike : String → String → Bool) where
  -- buildAchievementWhere
  pub achievement_where : ListConfigQuery → AchievementConfig → Bool
  achievement_where query c =
      if_given query.group_key (λ k. c.group_key == k)
      && (if_defined query.active (bool_eq c.active)
          && if_given query.search
              (λ s. ilike c.name (search_pattern s) || ilike c.description (search_pattern s)))

  -- buildBadgeWhere
  pub badge_where : ListConfigQuery → BadgeConfig → Bool
  badge_where query b =
      if_defined query.active (bool_eq b.active)
      && if_given query.search
          (λ s. ilike b.name (search_pattern s) || ilike b.description (search_pattern s))

  unfoldable pub list_achievements :
      (table : PagedTable AchievementConfig)
      → ListConfigQuery
      → table.Table
      → Paginated AchievementConfig
  unfolding achievement_where
  list_achievements table query t = list_page table query.pages (achievement_where query) t

  unfoldable pub list_badges :
      (table : PagedTable BadgeConfig) → ListConfigQuery → table.Table → Paginated BadgeConfig
  unfolding badge_where
  list_badges table query t = list_page table query.pages (badge_where query) t

-- achievementsById, a Map: of two entries of one key the later stays.
abbrev pub later_or : Option AchievementConfig → Option AchievementConfig → Option AchievementConfig
later_or none earlier = earlier
later_or (some c) earlier = some c

unfoldable pub by_id : List AchievementConfig → String → Option AchievementConfig
by_id [] id = none
by_id (c ∷ cs) id = later_or (by_id cs id) (if c.id == id then some c else none)

abbrev add_found : Option AchievementConfig → List AchievementConfig → List AchievementConfig
add_found none rest = rest
add_found (some c) rest = c ∷ rest

-- requiredAchievementIds, each looked up, without those that are not there.
unfoldable pub looked_up : List AchievementConfig → List String → List AchievementConfig
unfolding by_id
looked_up cs [] = []
looked_up cs (id ∷ ids) = add_found (by_id cs id) (looked_up cs ids)

pub record BadgeCatalogItem : Type 0 where
  pub badge : BadgeConfig
  pub required_achievements : List AchievementConfig

pub record Catalog : Type 0 where
  pub groups : List AchievementGroup
  pub achievements : List AchievementConfig
  pub badges : List BadgeCatalogItem

-- toBadgeCatalogItem
abbrev pub to_badge_catalog_item : List AchievementConfig → BadgeConfig → BadgeCatalogItem
to_badge_catalog_item cs b = record {
  badge = b;
  required_achievements = looked_up cs b.required_achievement_ids;
}

unfoldable pub get_catalog :
    List AchievementGroup → List AchievementConfig → List BadgeConfig → Catalog
unfolding looked_up
get_catalog groups achievements badges = record {
  groups = groups;
  achievements = achievements;
  badges = map (to_badge_catalog_item achievements) badges;
}

abbrev ids_of : List AchievementConfig → List String
ids_of cs = map (λ (c : AchievementConfig). c.id) cs

by_id_cases :
    (cs : List AchievementConfig) (id : String)
    → ((by_id cs id ≡ none) × (has (ids_of cs) id ≡ false))
      ⊎ ((c : AchievementConfig) × (by_id cs id ≡ some c)
          × (c.id ≡ id)
          × (has (ids_of cs) id ≡ true))
unfolding by_id
by_id_cases [] id = inl (refl, refl)
by_id_cases (c ∷ cs) id = elim (by_id_cases cs id) [
  | inl (missing, lacks) ↦ elim (Bool-cases (c.id == id)) [
    | inl same ↦ inr (c, simp (missing, same), (eq_iff c.id id).0 same, simp same)
    | inr other ↦ inl (simp (missing, other), simp (other, lacks))
  ]
  | inr (d, there, e, holds) ↦ inr (d, simp there, e, ground (arith, holds))
]

looked_up_ids :
    (cs : List AchievementConfig) (ids : List String)
    → ids_of (looked_up cs ids) ≡ filter (has (ids_of cs)) ids
unfolding looked_up
looked_up_ids cs [] = refl
looked_up_ids cs (id ∷ ids) = elim (by_id_cases cs id) [
  | inl (missing, lacks) ↦ simp (missing, lacks) (looked_up_ids cs ids)
  | inr (c, there, e, holds) ↦
      simp (there, holds)
        (ap (λ (i : String). i ∷ ids_of (looked_up cs ids)) e
          ∙ ap (λ (l : List String). id ∷ l) (looked_up_ids cs ids))
]

-- The catalogue shows every badge, and under each the achievements that it requires, in the order of
-- its list: all those that are stored, and no others.
pub get_catalog_lem :
    (groups : List AchievementGroup) (achievements : List AchievementConfig)
    (badges : List BadgeConfig)
    → (map (λ (i : BadgeCatalogItem). i.badge) (get_catalog groups achievements badges).badges
        ≡ badges)
      × All
          (λ (i : BadgeCatalogItem).
            map (λ (c : AchievementConfig). c.id) i.required_achievements
            ≡ filter
                (has (map (λ (c : AchievementConfig). c.id) achievements))
                i.badge.required_achievement_ids)
          (get_catalog groups achievements badges).badges
unfolding get_catalog
get_catalog_lem groups achievements [] = (refl, tt)
get_catalog_lem groups achievements (b ∷ bs) =
    let (shown, required) = get_catalog_lem groups achievements bs in
    (
      ap (λ (l : List BadgeConfig). b ∷ l) shown,
      (looked_up_ids achievements b.required_achievement_ids, required),
    )
