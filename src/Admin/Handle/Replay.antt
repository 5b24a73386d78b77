-- ===== src/Admin/Handle/Replay.antt =====
-- The last counter of the second factor, over all that `handle` of src/titanbox/plugins/deploy_admin.py
-- does.
use vpsssssskjwjw.Prelude.{List, [], ◌∷◌, text_eq, nat_eq}
use vpsssssskjwjw.Prelude.Result.{Result}
use vpsssssskjwjw.Admin.Desk.{Policy, AdminLibrary, Desk, View}
use vpsssssskjwjw.Admin.Handle.{Update, handle}

-- The updates that come in, and how things stand outside at each of them.
unfoldable pub handle_all : AdminLibrary → Policy → List (View × Update) → Desk → Desk
handle_all L p [] d = d
handle_all L p ((w, u) ∷ us) d = handle_all L p us (handle L p w u d).1
