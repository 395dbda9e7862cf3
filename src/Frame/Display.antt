-- ===== src/Frame/Display.antt =====
-- mini-redis/src/frame.rs: `Display`, comparison with a text, and the error for an unexpected frame.
use tokioconf_2026_workshop.Base.{false, Bool, [], ◌∷◌, ◌++◌, Bytes, codes, same, if◌then◌else◌}
use tokioconf_2026_workshop.Frame.{
  Frame, Frames, simple, error, integer, bulk, null, array, nil, cons, Message, showing,
}
use tokioconf_2026_workshop.Std.Decimal.{decimal}
use tokioconf_2026_workshop.Std.Utf8.{is_utf8}

-- `PartialEq<&str>`.
unfoldable pub eq_text : Frame → Bytes → Bool
eq_text (simple s) t = same s t
eq_text (bulk s) t = same s t
eq_text (error s) t = false
eq_text (integer n) t = false
eq_text null t = false
eq_text (array fs) t = false

unfoldable pub to_error : Frame → Message
to_error f = showing (codes "unexpected frame: ") f

-- `debug` is what the crate bytes prints for `{:?}`.
module _ (debug : Bytes → Bytes) where
  unfoldable mutual
    pub display : Frame → Bytes
    display (simple s) = s
    display (error s) = codes "error: " ++ s
    display (integer n) = decimal n
    display (bulk s) = if is_utf8 s then s else debug s
    display null = codes "(nil)"
    display (array nil) = []
    display (array (cons f fs)) = display f ++ display_rest fs

    -- A space in front of each part but the first.
    pub display_rest : Frames → Bytes
    display_rest nil = []
    display_rest (cons f fs) = b' ' ∷ (display f ++ display_rest fs)
