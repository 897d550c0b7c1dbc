-- ===== src/Tests/Older.antt =====
-- The older worker on an approved order, and the upload of a receipt.
use x_ui_site.Prelude.{◌≡◌, refl, true, [], ◌∷◌}
use x_ui_site.Db.Session
use x_ui_site.Repository.Older.{first_by_vendor}
use x_ui_site.Provisioning.{provision, create_client}
use x_ui_site.Db.Errors.{ok}
use x_ui_site.Db.Rules.{Runs}
use x_ui_site.Provisioning.Older.{
  Told, NotTold, handle, handle-Told, done, listen, panicked, approved, other,
}
use x_ui_site.Receipt.{Network, Ended, put_webp, upload, upload-Ended, stored, put_of}
use x_ui_site.Tests.{world, old_order}

handle-Told_example :
    Runs world (handle old_order) (λ _. Told old_order world) (NotTold old_order world)
handle-Told_example = handle-Told old_order world refl

-- The second attempt succeeds, and the customer is told.
told : (handle old_order world).1.sent ≡ done old_order ∷ []
unfolding handle Session.◌>>=◌ first_by_vendor Session.look provision create_client Session.notify
told = refl

-- Service.Create notifies a map, which is no models.Order.
no_order : listen (other ∷ approved old_order ∷ []) world ≡ panicked world
unfolding listen
no_order = refl

abbrev minio : Network
minio = record { takes = λ url. true; answer = λ sent put. ok 200 }

upload-Ended_example :
    Ended minio "http://minio" "receipts" "1.webp"
      (1 ∷ 2 ∷ [])
      []
      (upload (put_webp minio "http://minio" "receipts") 1 1 1 "1.webp" (1 ∷ 2 ∷ []) [])
upload-Ended_example = upload-Ended minio "http://minio" "receipts" "1.webp" (1 ∷ 2 ∷ []) [] 1 1 1

uploaded :
    upload (put_webp minio "http://minio" "receipts") 1 1 1 "1.webp" (1 ∷ 2 ∷ []) []
    ≡ (stored, put_of "http://minio" "receipts" "1.webp" (1 ∷ 2 ∷ []) ∷ [])
unfolding upload put_webp
uploaded = refl
