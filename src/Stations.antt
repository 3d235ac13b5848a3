-- ===== src/Stations.antt =====
-- backend/src/yitu/stations/service.py: the station that serves a district.
use Prim.Native.String.{String}
use package.text.Mathlib.Text.{◌==◌ as str_eq}
use yitu.Base.{ℕ, Bool, true, false, ◌&&◌, List, [], ◌∷◌, ◌++◌, select, ◌==◌}
use yitu.Platform.Errors.{unsupported_service_area, multiple_results_found}
use yitu.Store.Catalog.{Station, ServiceArea}
use yitu.Store.Session.{Action, gets, raise, pure, ◌>>=◌}

-- Two texts, as lists of their characters' codes, are the same.
unfoldable pub code_eq : List ℕ → List ℕ → Bool
code_eq [] [] = true
code_eq (x ∷ xs) (y ∷ ys) = (x == y) && code_eq xs ys
code_eq _ _ = false

abbrev pub serves : List ℕ → String → ServiceArea → Bool
serves district service_type a =
    code_eq a.area_district district && str_eq a.area_service service_type

-- The enabled stations of an area: the rows of the join.
abbrev pub stations_of : ServiceArea → List Station → List Station
stations_of a = select (λ st. (st.station_row == a.area_station) && st.station_enabled)

unfoldable pub matching : List ℕ → String → List ServiceArea → List Station → List Station
matching district service_type [] stations = []
matching district service_type (a ∷ areas) stations =
    let rest = matching district service_type areas stations in
    elim (serves district service_type a) [ true ↦ stations_of a stations ++ rest | false ↦ rest ]

-- `scalar_one_or_none`, and the error when there is none.
abbrev pub one_station : List Station → Action Station
one_station [] = raise unsupported_service_area
one_station (x ∷ []) = pure x
one_station (x ∷ y ∷ ys) = raise multiple_results_found

unfoldable pub match_station : List ℕ → String → Action Station
match_station district service_type = do
  found ← gets (λ s. matching district service_type s.service_areas s.stations)
  one_station found
