-- ===== src/Admin/Shell/Roles.antt =====
-- App.tsx: what each role sees, and the number of open orders.
use openmarket.Prelude.{ℕ, ◌≡◌, refl, true, false, none, some, ltb, if◌then◌else◌}
use openmarket.Admin.Users.{owner, manager, cashier}
use openmarket.Admin.Shell.{
  State, Page, analytics, products, orders, customers, settings, security, users, sales, z_report,
  dsfinvk, sees, Reply, done, failed, replied, badge,
}

-- Every page that a cashier sees a manager sees, and every page that a manager sees the owner sees, who
-- sees all.
pub roles_ordered :
    (p : Page)
    → (sees cashier p ≡ true → sees manager p ≡ true)
      × (sees manager p ≡ true → sees owner p ≡ true)
      × (sees owner p ≡ true)
unfolding sees
roles_ordered analytics = (λ h. refl, λ h. refl, refl)
roles_ordered products = (λ h. refl, λ h. refl, refl)
roles_ordered orders = (λ h. refl, λ h. refl, refl)
roles_ordered customers = (λ h. refl, λ h. refl, refl)
roles_ordered settings = (λ h. refl, λ h. refl, refl)
roles_ordered security = (λ h. refl, λ h. refl, refl)
roles_ordered users = (λ h. h, λ h. refl, refl)
roles_ordered sales = (λ h. refl, λ h. refl, refl)
roles_ordered z_report = (λ h. refl, λ h. refl, refl)
roles_ordered dsfinvk = (λ h. h, λ h. refl, refl)

-- While the page is there, a reply leaves a badge exactly if it is a number above zero, and then that
-- number; afterwards replies change nothing.
pub badge_told :
    (a : Reply ℕ) (s : State)
    → (s.cancelled ≡ false
        → badge (replied a s)
          ≡ elim a [ done n ↦ (if ltb 0 n then some n else none) | failed m ↦ none ])
      × (s.cancelled ≡ true → replied a s ≡ s)
unfolding replied badge
badge_told (done n) s = (λ h. rw (h, badge) refl, λ h. rw (h, replied) refl)
badge_told (failed m) s = (λ h. rw (h, badge) refl, λ h. rw (h, replied) refl)
