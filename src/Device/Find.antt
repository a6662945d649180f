-- ===== src/Device/Find.antt =====
-- The searches of core_daemon/device.c over its queues, and the write through the pointer that a
-- search returns. A loop over `g_queue_peek_nth` is a recursion on the contents of the queue; no
-- entry of a queue is NULL.
pub mod Laws
use hsbsw.Prelude.{ℕ, List, [], ◌∷◌, Option, none, some, ◌==◌, if◌then◌else◌}
use hsbsw.Device.Types.{Dev, Drv}

-- `_find_dev`
unfoldable pub find_dev : List Dev → ℕ → Option Dev
find_dev [] dev_id = none
find_dev (pdev ∷ q) dev_id = if pdev.id == dev_id then some pdev else find_dev q dev_id

-- The queue after a write through the pointer that `_find_dev` returns.
unfoldable pub update_dev : List Dev → ℕ → (Dev → Dev) → List Dev
update_dev [] dev_id f = []
update_dev (pdev ∷ q) dev_id f =
    if pdev.id == dev_id then f pdev ∷ q else pdev ∷ update_dev q dev_id f

-- `find_dev_by_ip`
unfoldable pub find_dev_by_ip : List Dev → ℕ → Option Dev
find_dev_by_ip [] ip = none
find_dev_by_ip (pdev ∷ q) ip = if ip == pdev.ip then some pdev else find_dev_by_ip q ip

-- `_find_drv`
unfoldable pub find_drv : List Drv → ℕ → Option Drv
find_drv [] drv_id = none
find_drv (pdrv ∷ q) drv_id = if pdrv.id == drv_id then some pdrv else find_drv q drv_id

-- The array that `get_dev_id_list` fills; its length is `*dev_num`.
unfoldable pub get_dev_id_list : List Dev → List ℕ
get_dev_id_list [] = []
get_dev_id_list (pdev ∷ q) = pdev.id ∷ get_dev_id_list q
