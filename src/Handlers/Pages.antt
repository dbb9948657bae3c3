-- ===== src/Handlers/Pages.antt =====
-- internal/httpx/handlers/flows.go: a client that follows the cursors of GET /flows.
use open_tams.Prelude.Bytes.{Bytes}
use open_tams.Handlers.Listings.{listing, listing_refused, ListingResponse}
use open_tams.Prelude.Result.{Result, err, ok}
use open_tams.Prelude.{map, List, Option}
use open_tams.Flows.{FlowError}

-- What the client reads of an answer: the body, and the cursor among the headers.
abbrev pub read_page :
    {A : Type 0} → Result FlowError (ListingResponse A) → Result FlowError (List A × Option Bytes)
read_page (ok (listing items headers)) = ok (items, headers.next_key)
read_page (ok listing_refused) = err FlowError.bad_timerange
read_page (err e) = err e

abbrev map_page :
    {A B : Type 0}
    → (A → B)
    → Result FlowError (List A × Option Bytes)
    → Result FlowError (List B × Option Bytes)
map_page f (ok (items, cursor)) = ok (map f items, cursor)
map_page f (err e) = err e

abbrev map_result : {A B : Type 0} → (A → B) → Result FlowError (List A) → Result FlowError (List B)
map_result f (ok items) = ok (map f items)
map_result f (err e) = err e
