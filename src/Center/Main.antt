-- ===== src/Center/Main.antt =====
-- `main` of src/control_center_v1.cpp up to the loop of GLUT: the choice of the device and the exits.
use Prim.Native.String.{String, ◌++◌ as str_append}
use mac_kinect_native.Base.{
  ℕ, suc, ◌≡◌, refl, Bool, true, false, not, ◌&&◌, ◌||◌, Option, none, some, List, [], ◌∷◌, ◌++◌,
  arith,
}
use mac_kinect_native.Base.Tests.{◌==◌, if◌then◌else◌, if_rule}
use mac_kinect_native.Base.Int.{ℤ, pos, pos_part, ltb_ℤ, max_ℤ}
use mac_kinect_native.V1Backend.Context.{Attributes}
use mac_kinect_native.V1Backend.Serials.{stoi}

-- The calls of `main`, with the answer where it may be a failure.
pub data MainCall : Type 0 where
  inits : Bool → MainCall
  sets_log_level selects_subdevices counts_devices lists_attributes frees_attributes : MainCall
  opens_device : ℕ → Bool → MainCall
  starts_thread : Bool → MainCall
  closes_device shuts_down : MainCall

pub record MainAnswers : Type 0 where
  -- All seven of `malloc`.
  pub buffers_made : Bool
  pub inited : Bool
  pub device_count : ℤ
  pub opens_well : Bool
  pub attributes : Attributes
  pub thread_made : Bool

-- How `main` ends, or that it goes on with the loop of GLUT.
pub record MainEnd : Type 0 where
  pub goes_on : Bool
  pub status : Option String
  pub calls : List MainCall

-- `max(0, atoi(argv[1]))`, for a number that fits an `int`; a text without one is 0.
unfoldable pub device_index : Option String → ℕ
device_index none = 0
device_index (some argument) = at_least_zero (stoi argument)
  where
    at_least_zero : Option ℤ → ℕ
    at_least_zero none = 0
    at_least_zero (some n) = pos_part (max_ℤ (pos 0) n)

-- The loop over the attributes from this index on: the status of the opened device.
unfoldable pub connected_serial : ℕ → ℕ → List (Option String) → Option String
connected_serial wanted index [] = none
connected_serial wanted index (none ∷ nodes) = connected_serial wanted (suc index) nodes
connected_serial wanted index (some serial ∷ nodes) =
    let rest = connected_serial wanted (suc index) nodes in
    if index == wanted then some (str_append "Connected serial: " serial) else rest

abbrev pub status_of : ℕ → Option (List (Option String)) → Option String
status_of wanted none = none
status_of wanted (some nodes) = connected_serial wanted 0 nodes

abbrev pub free_given : Option (List (Option String)) → List MainCall
free_given none = []
free_given (some nodes) = MainCall.frees_attributes ∷ []

abbrev pub fails_with : List MainCall → Option String → MainEnd
fails_with calls status = record { goes_on = false; status = status; calls = calls }

-- The calls up to the count of the devices.
abbrev pub first_calls : List MainCall
first_calls =
    MainCall.inits true
    ∷ MainCall.sets_log_level
    ∷ MainCall.selects_subdevices
    ∷ MainCall.counts_devices
    ∷ []

-- Once the device is open and its attributes are listed.
unfoldable pub main_listed : ℕ → Option (List (Option String)) → Bool → MainEnd
unfolding connected_serial
main_listed index given thread_made =
    let listed = MainCall.opens_device index true ∷ MainCall.lists_attributes ∷ [] in
    let calls = (first_calls ++ listed) ++ free_given given in
    let closing =
      MainCall.starts_thread false ∷ MainCall.closes_device ∷ MainCall.shuts_down ∷ [] in
    if not thread_made then fails_with (calls ++ closing) (status_of index given) else record {
      goes_on = true;
      status = status_of index given;
      calls = calls ++ (MainCall.starts_thread true ∷ []);
    }

-- A list is read only if some devices are counted in it.
unfoldable pub main_opened : MainAnswers → ℕ → MainEnd
unfolding main_listed
main_opened a index =
    let given = if ltb_ℤ (pos 0) a.attributes.count then a.attributes.nodes else none in
    main_listed index given a.thread_made

unfoldable pub run_main : MainAnswers → Option String → MainEnd
unfolding device_index main_opened
run_main a argument =
    let index = device_index argument in
    if not a.buffers_made
    then fails_with [] none
    else if not a.inited
    then fails_with (MainCall.inits false ∷ []) none
    else if ltb_ℤ a.device_count (pos 1) || not (ltb_ℤ (pos index) a.device_count)
    then fails_with (first_calls ++ (MainCall.shuts_down ∷ [])) none
    else if not a.opens_well
    then fails_with (first_calls ++ (MainCall.opens_device index false ∷ MainCall.shuts_down ∷ []))
        none
    else main_opened a index

-- What is open: the library and the device.
pub data Open : Type 0 where
  nothing_open library_open device_open : Open

-- `none` is a call that libfreenect does not allow there.
abbrev pub step_open : MainCall → Open → Option Open
step_open (MainCall.inits ok) Open.nothing_open =
    some (if ok then Open.library_open else Open.nothing_open)
step_open (MainCall.opens_device index ok) Open.library_open =
    some (if ok then Open.device_open else Open.library_open)
step_open MainCall.closes_device Open.device_open = some Open.library_open
step_open MainCall.shuts_down Open.library_open = some Open.nothing_open
step_open (MainCall.inits ok) _ = none
step_open (MainCall.opens_device index ok) _ = none
step_open MainCall.closes_device _ = none
step_open MainCall.shuts_down _ = none
step_open (MainCall.starts_thread ok) o = some o
step_open _ Open.nothing_open = none
step_open _ o = some o

abbrev pub run_open : List MainCall → Option Open → Option Open
run_open [] o = o
run_open (c ∷ cs) none = none
run_open (c ∷ cs) (some o) = run_open cs (step_open c o)

-- The calls are allowed, and what they leave open.
abbrev pub IsReleased : MainEnd → Type 0
IsReleased e =
    run_open e.calls (some Open.nothing_open)
    ≡ some (if e.goes_on then Open.device_open else Open.nothing_open)

main_listed-IsReleased :
    (index : ℕ) (given : Option (List (Option String))) (thread_made : Bool)
    → IsReleased (main_listed index given thread_made)
unfolding main_listed
main_listed-IsReleased index none true = refl
main_listed-IsReleased index none false = refl
main_listed-IsReleased index (some nodes) true = refl
main_listed-IsReleased index (some nodes) false = refl

-- Every answer is good, and the wanted device is among those counted.
abbrev pub all_good : MainAnswers → ℕ → Bool
all_good a index =
    (a.buffers_made && a.inited)
    && (ltb_ℤ (pos index) a.device_count && (a.opens_well && a.thread_made))

run_main_goes_on :
    (a : MainAnswers) (argument : Option String)
    → (run_main a argument).goes_on ≡ all_good a (device_index argument)
unfolding run_main main_opened main_listed
run_main_goes_on a argument = ground arith

main_ends-IsReleased :
    (a : MainAnswers) (argument : Option String) → IsReleased (run_main a argument)
unfolding run_main main_opened
main_ends-IsReleased a argument =
    let index = device_index argument in
    let away = ltb_ℤ a.device_count (pos 1) || not (ltb_ℤ (pos index) a.device_count) in
    if_rule IsReleased (not a.buffers_made) (fails_with [] none) (λ _. refl)
      (λ _.
        if_rule IsReleased (not a.inited) (fails_with (MainCall.inits false ∷ []) none) (λ _. refl)
          (λ _.
            if_rule IsReleased away (fails_with (first_calls ++ (MainCall.shuts_down ∷ [])) none)
              (λ _. refl)
              (λ _.
                if_rule IsReleased (not a.opens_well)
                  (fails_with
                    (first_calls ++ (MainCall.opens_device index false ∷ MainCall.shuts_down ∷ []))
                    none)
                  {y = main_opened a index} (λ _. refl)
                  (λ _.
                    main_listed-IsReleased index
                      (if ltb_ℤ (pos 0) a.attributes.count then a.attributes.nodes else none)
                      a.thread_made))))

-- Whatever the library and the system answer: `main` calls libfreenect in an order that it allows;
-- it goes on exactly if every answer is good and the wanted device is among those counted, then with
-- the device open; and every failing exit has closed what was opened.
pub run_main-IsReleased :
    (a : MainAnswers) (argument : Option String)
    → IsReleased (run_main a argument)
      × ((run_main a argument).goes_on ≡ all_good a (device_index argument))
run_main-IsReleased a argument = (main_ends-IsReleased a argument, run_main_goes_on a argument)
