-- ===== src/BookClient/Examples/Requests.antt =====
-- PCom3/requests.c: the theorems on requests at concrete texts.
use pcom_assignments.Prelude.{◌≡◌, arith, [], ◌∷◌, ◌++◌, none, some}
use pcom_assignments.Prelude.Texts.{Text, text}
use pcom_assignments.Prelude.Run.{done, fault, null_pointer}
use pcom_assignments.BookClient.Requests.{compute_get_request}
use pcom_assignments.BookClient.Requests.Fits.{compute_get_request-unlines}
use pcom_assignments.BookClient.Requests.Faults.{compute_get_request-null_cookie}

abbrev host : Text
host = text "h"

abbrev url : Text
url = text "/b"

abbrev crlf : Text
crlf = 13 ∷ 10 ∷ []

compute_get_request-unlines_example :
    compute_get_request host url none (some (some (text "c=1") ∷ [])) (some (text "t"))
    ≡ done (
        text "GET /b HTTP/1.1"
        ++ (crlf
            ++ (text "Host: h"
                ++ (crlf
                    ++ (text "Authorization: Bearer t"
                        ++ (crlf ++ (text "Cookie: c=1; " ++ (crlf ++ crlf))))))))
compute_get_request-unlines_example =
    compute_get_request-unlines host url none (some (text "c=1" ∷ [])) (some (text "t"))
      (omega arith) (omega arith)

compute_get_request-null_cookie_example :
    compute_get_request host url none (some (none ∷ [])) none ≡ fault null_pointer
compute_get_request-null_cookie_example =
    compute_get_request-null_cookie host url none [] none (omega arith) (omega arith)
